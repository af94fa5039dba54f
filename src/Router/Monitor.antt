-- ===== src/Router/Monitor.antt =====
-- The monitor of the router and its queries (src/audio_router.c): monitor_thread_func, the start and
-- the stop of its thread, audio_router_is_running and audio_router_get_physical_device_uid.
use audioctl.Base.{
  ℕ, ◌+◌, ◌-◌, ◌/◌, ◌%◌, ◌^◌, ◌<◌, ◌≡◌, refl, ap, ◌∙◌, Bool, true, false, not, ◌||◌, Option, none,
  some, List, [], ◌∷◌, All, ltb, add32, sub32, if◌then◌else◌, arith, ◌*◌, Bool-cases, inl, inr,
}
use audioctl.Base.Bytes.{Bytes}
use audioctl.Router.Context.{RouterContext, calculate_latency_ms}

-- `uint64_t` addition and subtraction wrap.
abbrev pub add64 : ℕ → ℕ → ℕ
add64 a b = (a + b) % 2 ^ 64

abbrev pub sub64 : ℕ → ℕ → ℕ
sub64 a b = (a + 2 ^ 64 - b) % 2 ^ 64

-- `gettimeofday` in microseconds.
unfoldable pub get_time_us : ℕ → ℕ → ℕ
get_time_us seconds microseconds = add64 (seconds * 1000000 % 2 ^ 64) microseconds

-- A turn of the loop: whether both flags are set at its test, and the router and the time after the
-- five seconds of sleep.
pub record Round : Type 0 where
  pub goes_on : Bool
  pub router : RouterContext
  pub now_us : ℕ

-- What a turn puts into the log.
pub record MonitorReport : Type 0 where
  pub elapsed_sec : ℕ
  pub latency_ms : ℕ
  pub usage : ℕ
  pub peak : ℕ
  pub frames : ℕ
  pub underruns : ℕ
  pub overruns : ℕ
  pub healthy : Bool

-- The counts of the turn before.
pub record Last : Type 0 where
  pub underruns : ℕ
  pub overruns : ℕ
  pub frames : ℕ

abbrev pub counts_of : RouterContext → Last
counts_of r = record {
  underruns = r.underrun_count;
  overruns = r.overrun_count;
  frames = r.frames_transferred;
}

unfoldable pub report_round : Last → Round → MonitorReport
report_round last round =
    let r = round.router in
    let underruns = sub32 r.underrun_count last.underruns in
    let overruns = sub32 r.overrun_count last.overruns in
    record {
      elapsed_sec = sub64 round.now_us r.start_time / 1000000 % 2 ^ 32;
      latency_ms = calculate_latency_ms (r.ring_buffer.samples_buffered / r.channels) r.sample_rate;
      usage = r.ring_buffer.current_usage;
      peak = r.ring_buffer.peak_usage;
      frames = sub64 r.frames_transferred last.frames;
      underruns = underruns;
      overruns = overruns;
      healthy = not (ltb 0 underruns || ltb 0 overruns);
    }

unfoldable pub monitor_loop : List Round → Last → List MonitorReport
monitor_loop [] last = []
monitor_loop (round ∷ rounds) last =
    let rest = monitor_loop rounds (counts_of round.router) in
    if round.goes_on then report_round last round ∷ rest else []

unfoldable pub monitor_thread_func : List Round → List MonitorReport
monitor_thread_func rounds =
    monitor_loop rounds (record { underruns = 0; overruns = 0; frames = 0 })

-- The flag `g_monitor_running` and the thread, `none` for 0.
pub record Monitor : Type 0 where
  pub running : Bool
  pub thread : Option ℕ

-- With the thread that `pthread_create` makes; a failure leaves the old handle.
unfoldable pub start_monitor_thread : Monitor → Option ℕ → Monitor
start_monitor_thread m none = record m { running = false }
start_monitor_thread m (some thread) = record { running = true; thread = some thread }

-- The thread that is joined.
unfoldable pub stop_monitor_thread : Monitor → Monitor × Option ℕ
stop_monitor_thread m = (record { running = false; thread = none }, m.thread)

unfoldable pub audio_router_is_running : RouterContext → Bool
audio_router_is_running r = r.is_running

-- `uid_of` is the UID of a device, `none` if the call fails or gives none.
unfoldable pub audio_router_get_physical_device_uid :
    (ℕ → Option Bytes) → RouterContext → Option Bytes
audio_router_get_physical_device_uid uid_of r = elim (r.output_device) [
  | none ↦ none
  | some device ↦ if r.is_running then uid_of device else none
]

-- The counts of the router when the loop ends.
unfoldable pub last_counts : List Round → Last → Last
last_counts [] last = last
last_counts (round ∷ rounds) last =
    let rest = last_counts rounds (counts_of round.router) in if round.goes_on then rest else last

unfoldable pub sum_underruns : List MonitorReport → ℕ → ℕ
sum_underruns [] start = start
sum_underruns (r ∷ rs) start = sum_underruns rs (add32 start r.underruns)

unfoldable pub sum_overruns : List MonitorReport → ℕ → ℕ
sum_overruns [] start = start
sum_overruns (r ∷ rs) start = sum_overruns rs (add32 start r.overruns)

unfoldable pub sum_frames : List MonitorReport → ℕ → ℕ
sum_frames [] start = start
sum_frames (r ∷ rs) start = sum_frames rs (add64 start r.frames)

-- The counters are words.
abbrev pub IsCounted : Round → Type 0
IsCounted round =
    (round.router.underrun_count < 2 ^ 32)
    × (round.router.overrun_count < 2 ^ 32)
    × (round.router.frames_transferred < 2 ^ 64)

loop_adds_up :
    (rounds : List Round) (last : Last)
    → All IsCounted rounds
    → last.underruns < 2 ^ 32
    → last.overruns < 2 ^ 32
    → last.frames < 2 ^ 64
    → let reports = monitor_loop rounds last in
      (sum_underruns reports last.underruns ≡ (last_counts rounds last).underruns)
      × (sum_overruns reports last.overruns ≡ (last_counts rounds last).overruns)
      × (sum_frames reports last.frames ≡ (last_counts rounds last).frames)
unfolding monitor_loop report_round last_counts sum_underruns sum_overruns sum_frames
loop_adds_up [] last words a b c = (refl, refl, refl)
loop_adds_up (round ∷ rounds) last words a b c =
    let (x, y, z) =
      loop_adds_up rounds (counts_of round.router) words.1 words.0.0 words.0.1 words.0.2 in
    let rest = monitor_loop rounds (counts_of round.router) in
    let u : add32 last.underruns (sub32 round.router.underrun_count last.underruns)
        ≡ round.router.underrun_count =
      omega (arith, words.0.0) in
    let o : add32 last.overruns (sub32 round.router.overrun_count last.overruns)
        ≡ round.router.overrun_count =
      omega (arith, words.0.1) in
    let f : add64 last.frames (sub64 round.router.frames_transferred last.frames)
        ≡ round.router.frames_transferred =
      omega (arith, words.0.2) in
    elim (Bool-cases round.goes_on) [
      | inl on ↦
          rw on (
            ap (sum_underruns rest) u ∙ x,
            ap (sum_overruns rest) o ∙ y,
            ap (sum_frames rest) f ∙ z,
          )
      | inr off ↦ rw off (refl, refl, refl)
    ]

-- The increments that the monitor reports add up: from the start of the thread on their sums, in the
-- width of the counters, are the counters of the router in the last turn, however often these have
-- wrapped, for any words in the counters.
pub monitor_adds_up :
    (rounds : List Round)
    → All IsCounted rounds
    → let reports = monitor_thread_func rounds in
      let last = last_counts rounds (record { underruns = 0; overruns = 0; frames = 0 }) in
      (sum_underruns reports 0 ≡ last.underruns)
      × (sum_overruns reports 0 ≡ last.overruns)
      × (sum_frames reports 0 ≡ last.frames)
unfolding monitor_thread_func
monitor_adds_up rounds words =
    loop_adds_up rounds (record { underruns = 0; overruns = 0; frames = 0 }) words (omega arith)
      (omega arith) (omega arith)
