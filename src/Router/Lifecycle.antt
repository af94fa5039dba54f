-- ===== src/Router/Lifecycle.antt =====
-- `audio_router_start`, `audio_router_stop` and the queries of src/audio_router.c, with the answers
-- of the audio framework as parameters. Log lines, the 5 ms pause and the calls that start and stop
-- the thread of Router/Monitor, which only reads the counters, are left out; one of the log lines
-- divides by the sample rate.
pub mod Resources
use audioctl.Base.{
  ℕ, ◌/◌, Bool, true, false, not, ◌&&◌, Option, none, some, List, [], ◌∷◌, if◌then◌else◌,
}
use audioctl.Base.Float.{Float32, f_zero, f_one, flt, fle}
use audioctl.Base.Status.{OsStatus, no_err, not_running_error, bad_device_error, is_no_err}
use audioctl.Router.Ring.{rb_init, rb_destroy}
use audioctl.Router.Context.{RouterContext, calculate_latency_ms}

-- The answers of the framework and of the device manager to one start.
pub record Answers : Type 0 where
  pub virtual_device : Option ℕ
  pub physical_device : Option ℕ
  pub virtual_rate : Option ℕ
  pub physical_rate : Option ℕ
  pub allocated : Bool
  pub now_us : ℕ
  pub create_input : OsStatus
  pub create_output : OsStatus
  pub start_input : OsStatus
  pub start_output : OsStatus

-- The calls that take or give back a resource of the framework, with their status.
pub data Call : Type 0 where
  create_input_proc create_output_proc start_input_device start_output_device : OsStatus → Call
  destroy_input_proc destroy_output_proc stop_input_device stop_output_device : Call

abbrev pub rate_or_default : Option ℕ → ℕ
rate_or_default none = 48000
rate_or_default (some rate) = rate

-- The writes to `g_router` before the first IO proc is made.
pub prepare : Answers → RouterContext → RouterContext
prepare a ctx = record ctx {
  sample_rate = rate_or_default a.virtual_rate;
  channels = 2;
  bits_per_channel = 32;
  ring_buffer = rb_init ctx.ring_buffer a.allocated;
  frames_transferred = 0;
  underrun_count = 0;
  overrun_count = 0;
  output_gain = f_one;
  start_time = a.now_us;
}

abbrev pub release : RouterContext → RouterContext
release ctx = record ctx { ring_buffer = rb_destroy ctx.ring_buffer }

-- From the creation of the first IO proc on: status, state and calls in order.
pub connect_devices : Answers → RouterContext → OsStatus × RouterContext × List Call
connect_devices a ctx =
    if not (is_no_err a.create_input)
    then (a.create_input, release ctx, create_input_proc a.create_input ∷ [])
    else if not (is_no_err a.create_output)
    then (
      a.create_output,
      release ctx,
      create_input_proc a.create_input
          ∷ create_output_proc a.create_output
          ∷ destroy_input_proc
          ∷ [],
    )
    else if not (is_no_err a.start_input)
    then (
      a.start_input,
      release ctx,
      create_input_proc a.create_input
          ∷ create_output_proc a.create_output
          ∷ start_input_device a.start_input
          ∷ destroy_input_proc
          ∷ destroy_output_proc
          ∷ [],
    )
    else if not (is_no_err a.start_output)
    then (
      a.start_output,
      release ctx,
      create_input_proc a.create_input
          ∷ create_output_proc a.create_output
          ∷ start_input_device a.start_input
          ∷ start_output_device a.start_output
          ∷ stop_input_device
          ∷ destroy_input_proc
          ∷ destroy_output_proc
          ∷ [],
    )
    else (
      no_err,
      record ctx { is_running = true },
      create_input_proc a.create_input
          ∷ create_output_proc a.create_output
          ∷ start_input_device a.start_input
          ∷ start_output_device a.start_output
          ∷ [],
    )

-- Past the test of `is_running`.
pub start_stopped : Answers → RouterContext → OsStatus × RouterContext × List Call
unfolding prepare connect_devices
start_stopped a ctx = elim a.virtual_device [
  | none ↦ (not_running_error, ctx, [])
  | some input ↦ elim a.physical_device [
    | none ↦ (bad_device_error, record ctx { input_device = some input; output_device = none }, [])
    | some output ↦
        connect_devices a
          (prepare a (record ctx { input_device = some input; output_device = some output }))
  ]
]

unfoldable pub audio_router_start : Answers → RouterContext → OsStatus × RouterContext × List Call
unfolding start_stopped
audio_router_start a ctx = if ctx.is_running then (no_err, ctx, []) else start_stopped a ctx

pub audio_router_start_with_volume :
    Answers → Float32 → RouterContext → OsStatus × RouterContext × List Call
audio_router_start_with_volume a physical_volume ctx =
    let (status, ctx', calls) = audio_router_start a ctx in
    if is_no_err status && (flt f_zero physical_volume && fle physical_volume f_one)
    then (status, record ctx' { output_gain = physical_volume }, calls)
    else (status, ctx', calls)

unfoldable pub audio_router_stop : RouterContext → RouterContext × List Call
audio_router_stop ctx =
    if ctx.is_running
    then (
      record ctx { is_running = false; ring_buffer = rb_destroy ctx.ring_buffer },
      stop_output_device ∷ stop_input_device ∷ destroy_output_proc ∷ destroy_input_proc ∷ [],
    )
    else (ctx, [])

-- Frames transferred, underruns and overruns.
pub audio_router_get_stats : RouterContext → ℕ × ℕ × ℕ
audio_router_get_stats ctx = (ctx.frames_transferred, ctx.underrun_count, ctx.overrun_count)

-- Latency in ms, peak usage in percent (the code divides it by 100.0f) and buffered frames; `none`
-- is the result `false`.
pub audio_router_get_performance_info : RouterContext → Option (ℕ × ℕ × ℕ)
audio_router_get_performance_info ctx =
    let frames = ctx.ring_buffer.samples_buffered / ctx.channels in
    if ctx.is_running
    then some (calculate_latency_ms frames ctx.sample_rate, ctx.ring_buffer.peak_usage, frames)
    else none
