-- ===== src/Router/Lifecycle/Resources.antt =====
-- What a start and a stop of the route hold of the framework's resources.
use audioctl.Base.{
  ℕ, ◌*◌, ◌/◌, ◌%◌, ◌^◌, ◌≤◌, ◌<◌, ◌≡◌, ◌≢◌, ◌⊎◌, Bool, true, false, none, some, List, [], ◌∷◌,
  arith,
}
use native.Mathlib.Nat.{div-lt_iff_lt-mul}
use audioctl.Base.Status.{no_err, is_no_err}
use audioctl.Router.Ring.{rb_init, rb_destroy}
use audioctl.Router.Ring.Invariant.{IsValid, contents, rb_init-IsValid}
use audioctl.Router.Context.{RouterContext, calculate_latency_ms}
use audioctl.Router.Lifecycle.{
  Answers, Call, create_input_proc, create_output_proc, start_input_device, start_output_device,
  destroy_input_proc, destroy_output_proc, stop_input_device, stop_output_device,
  audio_router_start, audio_router_stop, audio_router_get_performance_info,
}

-- The IO procs that exist and the devices that run.
pub record Held : Type 0 where
  pub input_proc : Bool
  pub output_proc : Bool
  pub input_running : Bool
  pub output_running : Bool

abbrev pub nothing : Held
nothing = record {
  input_proc = false;
  output_proc = false;
  input_running = false;
  output_running = false;
}

abbrev pub everything : Held
everything = record {
  input_proc = true;
  output_proc = true;
  input_running = true;
  output_running = true;
}

abbrev pub after_call : Call → Held → Held
after_call (create_input_proc status) h = record h { input_proc = is_no_err status }
after_call (create_output_proc status) h = record h { output_proc = is_no_err status }
after_call (start_input_device status) h = record h { input_running = is_no_err status }
after_call (start_output_device status) h = record h { output_running = is_no_err status }
after_call destroy_input_proc h = record h { input_proc = false }
after_call destroy_output_proc h = record h { output_proc = false }
after_call stop_input_device h = record h { input_running = false }
after_call stop_output_device h = record h { output_running = false }

abbrev pub after_calls : List Call → Held → Held
after_calls [] h = h
after_calls (c ∷ cs) h = after_calls cs (after_call c h)

-- A stopped route has no ring buffer.
abbrev pub IsIdle : RouterContext → Type 0
IsIdle ctx = (ctx.is_running ≡ false) × (ctx.ring_buffer.buffer ≡ none)

-- A start of a stopped route either succeeds, and then runs with both IO procs and both devices, or
-- returns an error, and then the route is idle again and nothing of the framework is held.
pub start_all_or_nothing :
    (a : Answers) (ctx : RouterContext)
    → IsIdle ctx
    → let (status, ctx', calls) = audio_router_start a ctx in
      ((status ≡ no_err) × (ctx'.is_running ≡ true) × (after_calls calls nothing ≡ everything))
      ⊎ ((status ≢ no_err) × IsIdle ctx' × (after_calls calls nothing ≡ nothing))
unfolding audio_router_start rb_init rb_destroy
start_all_or_nothing a ctx idle = ground arith

-- Stopping a route that runs gives everything back and leaves it idle.
pub stop_releases :
    (ctx : RouterContext)
    → ctx.is_running ≡ true
    → let (ctx', calls) = audio_router_stop ctx in
      IsIdle ctx' × (after_calls calls everything ≡ nothing)
unfolding audio_router_stop rb_destroy
stop_releases ctx h = ground arith

-- A start of a stopped route that succeeds with its ring buffer allocated has a valid and empty one.
pub start-IsValid :
    (a : Answers) (ctx : RouterContext)
    → ctx.is_running ≡ false
    → a.allocated ≡ true
    → (audio_router_start a ctx).0 ≡ no_err
    → let (_, ctx', _) = audio_router_start a ctx in
      IsValid ctx'.ring_buffer × (contents ctx'.ring_buffer ≡ []) × (ctx'.channels ≡ 2)
unfolding audio_router_start
start-IsValid a ctx stopped allocated e = ground (arith, rb_init-IsValid ctx.ring_buffer)

latency-le :
    (frames rate : ℕ) → frames < 2048 → 48000 ≤ rate → calculate_latency_ms frames rate ≤ 42
unfolding calculate_latency_ms
latency-le frames rate small fast = ground (arith, quotient)
  where
    quotient : frames * 1000 % 2 ^ 32 / rate < 43
    quotient = (div-lt_iff_lt-mul (omega arith)).1 (omega arith)

-- On a running stereo route at 48 kHz or more, with a valid ring buffer, the reported latency is at
-- most 42 ms and the reported peak usage at most 100 %.
pub latency_bounded :
    (ctx : RouterContext)
    → ctx.is_running ≡ true
    → ctx.channels ≡ 2
    → 48000 ≤ ctx.sample_rate
    → IsValid ctx.ring_buffer
    → (latency peak frames : ℕ) × (audio_router_get_performance_info ctx
        ≡ some (latency, peak, frames))
      × (latency ≤ 42)
      × (peak ≤ 100)
      × (frames < 2048)
unfolding audio_router_get_performance_info calculate_latency_ms
latency_bounded ctx running stereo rate v = (
  calculate_latency_ms frames ctx.sample_rate,
  ctx.ring_buffer.peak_usage,
  frames,
  ground arith,
  latency-le frames ctx.sample_rate small rate,
  v.percent,
  small,
)
  where
    frames : ℕ
    frames = ctx.ring_buffer.samples_buffered / ctx.channels

    small : frames < 2048
    small = rw stereo (omega (arith, v.reported))
