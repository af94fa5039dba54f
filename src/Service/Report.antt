-- ===== src/Service/Report.antt =====
-- `print_service_status` and what it asks (src/service_manager.c). The log, the user and the socket
-- are answers of the system.
use audioctl.Base.{
  ℕ, ◌^◌, ◌≤◌, ◌<◌, ◌≡◌, refl, Bool, true, false, not, Option, none, some, ◌==◌, if◌then◌else◌,
}
use audioctl.Base.Bytes.{Bytes, codes}
use audioctl.Service.{
  World, read_pid_file, service_is_running, init_daemon, DaemonCalls, boot, service_start,
  service_stop,
}
use audioctl.Service.Lifecycle.{service_start_succeeds, start_stop_service}

-- `getpwuid_r`, with whether its buffer can be had.
unfoldable pub get_current_username : Bool → Option Bytes → Bytes
get_current_username allocated name =
    if not allocated
    then codes "unknown"
    else elim name [ none ↦ codes "unknown" | some user ↦ user ]

unfoldable pub check_root_privileges : ℕ → Bool
check_root_privileges user_id = user_id == 0

pub data SocketState : Type 0 where
  no_path : SocketState
  not_running : Bytes → SocketState
  running : Bytes → ℕ → SocketState

-- The answers: the start time of a process, the log file with its size if it is there, the path of
-- the PID file and of the support directory, the user, and the path of the socket with the time of
-- its change if a socket is there.
pub record StatusCalls : Type 0 where
  pub start_time : ℕ → Option ℕ
  pub log : Option (Bytes × ℕ)
  pub pid_path : Option Bytes
  pub support_directory : Option Bytes
  pub allocated : Bool
  pub user_name : Option Bytes
  pub socket : Option (Bytes × Option ℕ)

-- What is shown of a service that runs.
pub record Running : Type 0 where
  pub pid : Option ℕ
  pub started : Option ℕ
  pub log : Option (Bytes × ℕ)
  pub pid_path : Option Bytes

pub record StatusReport : Type 0 where
  pub service : Option Running
  pub support_directory : Option Bytes
  pub user : Bytes
  pub socket : SocketState

abbrev pub socket_state : Option (Bytes × Option ℕ) → SocketState
socket_state none = no_path
socket_state (some (path, some changed)) = running path changed
socket_state (some (path, none)) = not_running path

abbrev pub start_time_of : StatusCalls → Option ℕ → Option ℕ
start_time_of c none = none
start_time_of c (some pid) = c.start_time pid

-- The PID file is read once for the id, and once more by `service_is_running`.
unfoldable pub print_service_status : World → StatusCalls → StatusReport
print_service_status w c =
    let pid = read_pid_file w in
    record {
      service =
          if service_is_running w
          then some (record {
            pid = pid;
            started = start_time_of c pid;
            log = c.log;
            pid_path = c.pid_path;
          })
          else none;
      support_directory = c.support_directory;
      user = get_current_username c.allocated c.user_name;
      socket = socket_state c.socket;
    }

-- The status follows the service: after a start that succeeds (the service did not run, the PID file
-- can be written, and the daemon has a positive id that is an `int` and may be signalled) it shows
-- the service with the id of the daemon; after a stop that follows, if the PID file can be removed,
-- it shows none.
pub print_service_status-start :
    (w : World) (calls : DaemonCalls) (pid : ℕ) (ends : Bool) (c : StatusCalls)
    → service_is_running w ≡ false
    → init_daemon calls ≡ some pid
    → w.path_known ≡ true
    → w.writable ≡ true
    → 1 ≤ pid
    → pid < 2 ^ 31
    → w.permitted pid ≡ true
    → (service_start w (boot calls)).1.removable ≡ true
    → let w' = (service_start w (boot calls)).1 in
      ((print_service_status w' c).service
        ≡ some (record {
          pid = some pid;
          started = c.start_time pid;
          log = c.log;
          pid_path = c.pid_path;
        }))
      × ((print_service_status (service_stop w' ends).1 c).service ≡ none)
unfolding print_service_status
print_service_status-start w calls pid ends c off up known can_write positive small allowed clear =
    let (started, found, on) =
      service_start_succeeds w calls pid off up known can_write positive small allowed in
    let (stopped, gone) = start_stop_service w (boot calls) ends started clear in
    (rw (on, found) refl, rw gone refl)
