-- ===== src/Router/Examples.antt =====
-- The router's theorems at concrete inputs, and runs of its code.
use audioctl.Base.{
  map, take, drop, ◌-◌, ◌*◌, ◌/◌, ◌^◌, ◌≡◌, refl, ◌≢◌, ◌⊎◌, true, some, List, [], ◌∷◌, ◌++◌,
  replicate, arith,
}
use audioctl.Base.Float.{Float32, f_zero}
use audioctl.Base.Status.{OsStatus, no_err}
use audioctl.Router.Ring.{
  RingBuffer, total_samples, rb_init, rb_write, rb_read, rb_update_stats, write_samples,
  read_samples, copy_in, copy_out, occupied,
}
use audioctl.Router.Ring.Invariant.{IsValid, rb_init-IsValid}
use audioctl.Router.Ring.Fifo
use audioctl.Router.Ring.Refine.{view}
use audioctl.Router.Ring.Run.{Op, put, get, run, run_fifo, run_refines}
use audioctl.Router.Ring.Wrap.{wrapped_overrun_missed}
use audioctl.Router.Context.{RouterContext, AudioBuffer}
use audioctl.Router.Monitor.{
  Round, monitor_thread_func, last_counts, sum_underruns, sum_overruns, sum_frames, monitor_adds_up,
}
use audioctl.Router.Callbacks.{input_callback, output_callback}
use audioctl.Router.Callbacks.Flow.{IsRunning, queue_of, input_callback-push, output_callback-pop}
use audioctl.Router.Lifecycle.{Answers, audio_router_start}
use audioctl.Router.Samples.{blank, stopped, answers}
use audioctl.Router.Lifecycle.Resources.{
  IsIdle, nothing, everything, after_calls, start_all_or_nothing,
}

abbrev fresh : RingBuffer
fresh = record blank { buffer = some (replicate total_samples f_zero); capacity = total_samples }

fresh-IsValid : IsValid fresh
unfolding rb_init
fresh-IsValid = (rb_init-IsValid blank).0

-- A full buffer of 4096 samples, ten before the counter wraps on one side and behind it on the other.
abbrev wrapped : RingBuffer
wrapped = record fresh { write_pos = 4085; read_pos = 2 ^ 32 - 10 }

abbrev block : List Float32
block = 11 ∷ 12 ∷ 13 ∷ 14 ∷ []

abbrev silence : List Float32
silence = 0 ∷ 0 ∷ 0 ∷ 0 ∷ []

abbrev calls : List Op
calls = put block 2 2 ∷ get silence 1 2 ∷ get silence 2 2 ∷ []

-- The second request is for more than is left, so it is answered by silence.
calls-run : run fresh 0 0 calls ≡ some (11 ∷ 12 ∷ 0 ∷ 0 ∷ []) ∷ some silence ∷ []
unfolding run rb_write rb_read write_samples read_samples copy_in copy_out rb_update_stats occupied
    replicate
calls-run = refl

run_refines_example : run fresh 0 0 calls ≡ run_fifo (view fresh 0 0) calls
run_refines_example = run_refines fresh 0 0 calls fresh-IsValid (omega arith) (omega arith)

wrapped_overrun_missed_example :
    let (rb', over') = write_samples wrapped [] 0 block 4 in (over' ≡ 0) × (rb'.write_pos ≡ 4089)
wrapped_overrun_missed_example =
    wrapped_overrun_missed wrapped [] 0 block 4 (omega arith) (omega arith) (omega arith)

abbrev running : RouterContext
running = record stopped {
  ring_buffer = fresh;
  is_running = true;
  sample_rate = 48000;
  channels = 2;
  output_gain = 0x3f00_0000;
}

running-IsRunning : IsRunning running
running-IsRunning = record { running = refl; stereo = refl; ring = fresh-IsValid }

-- The output device does not start.
abbrev refused : Answers
refused = record answers { start_output = OsStatus.other 35 }

start_all_or_nothing_example :
    let (status, ctx', calls) = audio_router_start refused stopped in
    ((status ≡ no_err) × (ctx'.is_running ≡ true) × (after_calls calls nothing ≡ everything))
    ⊎ ((status ≢ no_err) × IsIdle ctx' × (after_calls calls nothing ≡ nothing))
start_all_or_nothing_example = start_all_or_nothing refused stopped (refl, refl)

abbrev buffer_of : List Float32 → AudioBuffer
buffer_of xs = record { number_channels = 2; data_byte_size = 16; samples = some xs }

input_callback-push_example :
    let ctx' = input_callback running (buffer_of block ∷ []) in
    IsRunning ctx'
    × (queue_of ctx' ≡ Fifo.push (queue_of running) block)
    × (ctx'.frames_transferred ≡ 2)
input_callback-push_example =
    input_callback-push running (buffer_of block) block [] running-IsRunning refl (omega arith)
      (omega arith) (omega arith)

-- A product that stands in for the rounding one.
abbrev sample_mul : Float32 → Float32 → Float32
sample_mul a b = a * b / 2 ^ 30

output_callback-pop_example :
    let (ctx', buffers) = output_callback sample_mul running (buffer_of silence ∷ []) in
    let (q, xs) = Fifo.pop (queue_of running) 4 in
    IsRunning ctx'
    × (queue_of ctx' ≡ q)
    × (buffers
        ≡ record (buffer_of silence) {
          samples =
              some (map (λ x. sample_mul x 0x3f00_0000) (take 4 (xs ++ [])) ++ drop 4 (xs ++ []));
        }
          ∷ [])
unfolding Fifo.pop replicate
output_callback-pop_example =
    output_callback-pop sample_mul running (buffer_of silence) silence [] running-IsRunning refl
      (omega arith) (omega arith)

-- The count of underruns wraps between two turns.
abbrev rounds : List Round
rounds =
    record {
      goes_on = true;
      router = record running { underrun_count = 4294967295; overrun_count = 1 };
      now_us = 5000000;
    }
    ∷ record {
      goes_on = true;
      router = record running { underrun_count = 3; overrun_count = 1 };
      now_us = 10000000;
    }
    ∷ []

monitor_adds_up_example :
    let reports = monitor_thread_func rounds in
    let last = last_counts rounds (record { underruns = 0; overruns = 0; frames = 0 }) in
    (sum_underruns reports 0 ≡ last.underruns)
    × (sum_overruns reports 0 ≡ last.overruns)
    × (sum_frames reports 0 ≡ last.frames)
monitor_adds_up_example = monitor_adds_up rounds (omega arith)
