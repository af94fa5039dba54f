-- ===== src/Service.antt =====
-- The service manager (src/service_manager.c): the PID file, and the start, the stop and the restart
-- of the daemon. The file, the processes and what signals are permitted are the world of the model.
pub mod PidFile
pub mod Lifecycle
pub mod Report
mod Examples
use audioctl.Base.{
  ℕ, ◌-◌, ◌^◌, Bool, true, false, not, ◌&&◌, ◌||◌, Option, none, some, List, [], ◌∷◌, ◌++◌, take,
  ◌==◌, leb, ltb, if◌then◌else◌,
}
use audioctl.Base.Bytes.{Bytes}
use audioctl.Base.Decimal.{print_int, Scanned, no_number, number, strtol, is_out_of_range}
use audioctl.Base.Line.{c_string, fgets}

-- `ServiceStatus`
pub data ServiceStatus : Type 0 where
  success error already_running not_running permission_denied : ServiceStatus

-- Whether the path of the PID file is known, what the file holds (`none` if it cannot be opened for
-- reading), whether it can be written and removed, which processes there are and which of them may
-- be signalled, and the signals sent so far, the last first.
pub record World : Type 0 where
  pub path_known : Bool
  pub pid_file : Option Bytes
  pub writable : Bool
  pub removable : Bool
  pub exists : ℕ → Bool
  pub permitted : ℕ → Bool
  pub terminated : List ℕ

abbrev pub at_line_end : Bytes → Bool
at_line_end [] = true
at_line_end (c ∷ s) = c == 10

-- `strtol` of the buffer, and the tests of its result.
abbrev pub accepted_pid : Scanned → Option ℕ
accepted_pid no_number = none
accepted_pid (number negative n rest) =
    if not (at_line_end rest)
      || (is_out_of_range negative n || (negative || (ltb n 1 || ltb (2 ^ 31 - 1) n)))
    then none
    else some n

-- `none` for -1.
unfoldable pub read_pid_file : World → Option ℕ
read_pid_file w = if not w.path_known then none else elim w.pid_file [
  | none ↦ none
  | some bytes ↦ elim (fgets 32 bytes) [
    | none ↦ none
    | some buffer ↦ accepted_pid (strtol (c_string buffer))
  ]
]

-- The flag is true for the result 0.
unfoldable pub write_pid_file : World → ℕ → Bool × World
write_pid_file w pid =
    if not w.path_known || not w.writable
    then (false, w)
    else (true, record w { pid_file = some (print_int pid (10 ∷ [])) })

-- `kill (pid, 0) == 0`
abbrev pub answers_signal : World → ℕ → Bool
answers_signal w pid = w.exists pid && w.permitted pid

unfoldable pub service_is_running : World → Bool
service_is_running w = elim (read_pid_file w) [ none ↦ false | some pid ↦ answers_signal w pid ]

-- A fork in the process that goes on as the daemon: an error, or the child.
pub data Fork : Type 0 where
  failed : Fork
  child : ℕ → Fork

-- What the calls of `init_daemon` answer, in their order.
pub record DaemonCalls : Type 0 where
  pub first_fork : Fork
  pub new_session : Bool
  pub second_fork : Fork
  pub at_root : Bool
  pub null_opened : Bool
  pub duplicated : Bool

abbrev pub forked : Fork → Option ℕ → Option ℕ
forked failed next = none
forked (child pid) next = next

abbrev pub pid_of : Fork → Option ℕ
pid_of failed = none
pid_of (child pid) = some pid

-- The process that returns from it, `none` if all have left by `exit`.
unfoldable pub init_daemon : DaemonCalls → Option ℕ
init_daemon calls = forked calls.first_fork (
    if not calls.new_session
    then none
    else forked calls.second_fork (
        if not calls.at_root
        then none
        else if not calls.null_opened
        then none
        else if not calls.duplicated
        then none
        else pid_of calls.second_fork))

-- `run_daemon` as far as the world sees it: the daemon exists and writes its PID file.
unfoldable pub run_daemon : World → DaemonCalls → World
run_daemon w calls = elim (init_daemon calls) [
  | none ↦ w
  | some pid ↦
      (write_pid_file (record w { exists = λ p. if p == pid then true else w.exists p }) pid).1
]

-- The fork of `service_start`, and what the daemon has done when its 100 ms are over.
pub data Boot : Type 0 where
  no_fork : Boot
  too_late : Boot
  boot : DaemonCalls → Boot

unfoldable pub service_start : World → Boot → ServiceStatus × World
service_start w b = if service_is_running w then (already_running, w) else elim b [
  | no_fork ↦ (error, w)
  | too_late ↦ (if service_is_running w then success else error, w)
  | boot calls ↦
      let w' = run_daemon w calls in (if service_is_running w' then success else error, w')
]

-- A process that gets SIGTERM ends when the system next runs it. The flag says whether it does so
-- at once.
unfoldable pub terminate : World → ℕ → Bool → World
terminate w pid ends = record w {
  exists = λ p. if (p == pid) && ends then false else w.exists p;
  terminated = pid ∷ w.terminated;
}

unfoldable pub remove_pid_file : World → World
remove_pid_file w = if w.path_known && w.removable then record w { pid_file = none } else w

unfoldable pub service_stop : World → Bool → ServiceStatus × World
service_stop w ends = elim (read_pid_file w) [
  | none ↦ (not_running, w)
  | some pid ↦
      if answers_signal w pid then (success, remove_pid_file (terminate w pid ends)) else (error, w)
]

abbrev pub goes_on : ServiceStatus → Bool
goes_on success = true
goes_on not_running = true
goes_on _ = false

unfoldable pub service_restart : World → Bool → Boot → ServiceStatus × World
service_restart w ends b =
    let (stopped, w') = service_stop w ends in
    let started = service_start w' b in if goes_on stopped then started else (stopped, w')
