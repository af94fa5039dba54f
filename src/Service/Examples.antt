-- ===== src/Service/Examples.antt =====
-- The theorems of the service manager at concrete inputs, and runs of its code.
use audioctl.Base.{ℕ, ◌≡◌, refl, ◌⊎◌, true, false, not, none, some, List, [], ◌∷◌, ◌==◌, arith}
use audioctl.Base.Decimal.{scan_digits, scan_magnitude, strtol}
use audioctl.Base.Line.{c_string, line_of}
use audioctl.Service.{
  success, error, not_running, World, read_pid_file, write_pid_file, service_is_running, child,
  DaemonCalls, init_daemon, Boot, boot, service_start, run_daemon, service_stop, service_restart,
}
use audioctl.Service.PidFile.{read-write_pid_file}
use audioctl.Service.Report.{StatusCalls, print_service_status, print_service_status-start}
use audioctl.Service.Lifecycle.{IsStopped, service_stop_lem, restart_stale}

-- A machine without the daemon.
abbrev idle : World
idle = record {
  path_known = true;
  pid_file = none;
  writable = true;
  removable = true;
  exists = λ p. p == 1;
  permitted = λ p. not (p == 1);
  terminated = [];
}

abbrev daemon_calls : DaemonCalls
daemon_calls = record {
  first_fork = child 500;
  new_session = true;
  second_fork = child 501;
  at_root = true;
  null_opened = true;
  duplicated = true;
}

abbrev daemon : Boot
daemon = boot daemon_calls

-- "501" and a newline, with a space in front.
abbrev text_501 : List ℕ
text_501 = 32 ∷ 53 ∷ 48 ∷ 49 ∷ 10 ∷ []

abbrev stale : World
stale = record idle { pid_file = some text_501 }

read_501 : read_pid_file stale ≡ some 501
unfolding read_pid_file line_of strtol scan_digits scan_magnitude c_string
read_501 = refl

read-write_pid_file_example : read_pid_file (write_pid_file idle 501).1 ≡ some 501
read-write_pid_file_example = read-write_pid_file idle 501 refl refl (omega arith) (omega arith)

restart_stale_example :
    (service_restart stale true daemon ≡ (error, stale))
    × (let (s, w') = service_start stale daemon in
        (s ≡ success) × (read_pid_file w' ≡ some 501) × (service_is_running w' ≡ true))
unfolding init_daemon
restart_stale_example =
    restart_stale stale 501 501 true daemon_calls read_501 refl refl refl refl (omega arith)
      (omega arith) refl

service_stop_lem_example :
    let (s, w') = service_stop stale true in
    ((s ≡ not_running) × (read_pid_file stale ≡ none) × (w' ≡ stale))
    ⊎ (((s ≡ success) × IsStopped stale w')
        ⊎ ((s ≡ error) × (service_is_running stale ≡ false) × (w' ≡ stale)))
service_stop_lem_example = service_stop_lem stale true

abbrev status_calls : StatusCalls
status_calls = record {
  start_time = λ pid. some 7;
  log = none;
  pid_path = none;
  support_directory = none;
  allocated = true;
  user_name = none;
  socket = none;
}

print_service_status-start_example :
    let w' = (service_start idle daemon).1 in
    ((print_service_status w' status_calls).service
      ≡ some (record { pid = some 501; started = some 7; log = none; pid_path = none }))
    × ((print_service_status (service_stop w' true).1 status_calls).service ≡ none)
unfolding service_is_running read_pid_file init_daemon service_start run_daemon write_pid_file
print_service_status-start_example =
    print_service_status-start idle daemon_calls 501 true status_calls refl refl refl refl
      (omega arith) (omega arith) refl refl
