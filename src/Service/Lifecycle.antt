-- ===== src/Service/Lifecycle.antt =====
-- The start, the stop and the restart of the daemon (src/service_manager.c).
use audioctl.Base.{
  ℕ, ◌^◌, ◌≤◌, ◌<◌, ◌≡◌, refl, ap, sym, ◌⊎◌, Bool, true, false, none, some, ◌∷◌, ◌==◌,
  if◌then◌else◌, arith, Option-cases, Bool-cases, inl, inr,
}
use mathlib.Core.Path.{subst}
use audioctl.Service.{
  ServiceStatus, success, error, already_running, not_running, World, read_pid_file, write_pid_file,
  answers_signal, service_is_running, DaemonCalls, init_daemon, run_daemon, Boot, no_fork, too_late,
  boot, service_start, terminate, remove_pid_file, service_stop, service_restart,
}
use audioctl.Service.PidFile.{read-write_pid_file}

-- `service_start` has one of three ends. The service ran before, and nothing changes; or it did not
-- run and runs afterwards, with success; or it runs neither before nor afterwards, with an error.
pub service_start_lem :
    (w : World) (b : Boot)
    → let (s, w') = service_start w b in
      ((s ≡ already_running) × (service_is_running w ≡ true) × (w' ≡ w))
      ⊎ (((s ≡ success) × (service_is_running w ≡ false) × (service_is_running w' ≡ true))
          ⊎ ((s ≡ error) × (service_is_running w ≡ false) × (service_is_running w' ≡ false)))
unfolding service_start
service_start_lem w no_fork = ground arith
service_start_lem w too_late = ground arith
service_start_lem w (boot calls) = ground arith

-- A daemon that comes through `init_daemon` in time is found: if the service does not run, the PID
-- file can be written and the daemon has a positive id that is an `int` and may be signalled, the
-- start succeeds and the file holds the id of the daemon.
pub service_start_succeeds :
    (w : World) (calls : DaemonCalls) (pid : ℕ)
    → service_is_running w ≡ false
    → init_daemon calls ≡ some pid
    → w.path_known ≡ true
    → w.writable ≡ true
    → 1 ≤ pid
    → pid < 2 ^ 31
    → w.permitted pid ≡ true
    → let (s, w') = service_start w (boot calls) in
      (s ≡ success) × (read_pid_file w' ≡ some pid) × (service_is_running w' ≡ true)
unfolding service_start run_daemon service_is_running write_pid_file
service_start_succeeds w calls pid off up known can_write positive small allowed = ground (
  arith,
  read-write_pid_file (record w { exists = λ p. if p == pid then true else w.exists p }) pid known
      can_write positive small,
)

-- The process of the PID file was there and was sent the signal, and the file is gone if it can be
-- removed.
pub record IsStopped (w w' : World) : Type 0 where
  pub pid : ℕ
  pub read : read_pid_file w ≡ some pid
  pub there : answers_signal w pid ≡ true
  pub signalled : w'.terminated ≡ pid ∷ w.terminated
  pub gone : (w.removable ≡ false) ⊎ (read_pid_file w' ≡ none)

known_of : (w : World) {pid : ℕ} → read_pid_file w ≡ some pid → w.path_known ≡ true
unfolding read_pid_file
known_of w h = ground arith

removed : (w : World) → (w.removable ≡ false) ⊎ (read_pid_file (remove_pid_file w) ≡ none)
unfolding remove_pid_file read_pid_file
removed w = ground arith

signals_kept :
    (w : World) (pid : ℕ) (ends : Bool)
    → (remove_pid_file (terminate w pid ends)).terminated ≡ pid ∷ w.terminated
unfolding remove_pid_file terminate
signals_kept w pid ends = ground arith

stopped_there :
    (w : World) (pid : ℕ) (ends : Bool)
    → read_pid_file w ≡ some pid
    → answers_signal w pid ≡ true
    → service_stop w ends ≡ (success, remove_pid_file (terminate w pid ends))
unfolding service_stop
stopped_there w pid ends found there = ground arith

running_there :
    (w : World)
    → service_is_running w ≡ true
    → (pid : ℕ) × (read_pid_file w ≡ some pid) × (answers_signal w pid ≡ true)
unfolding service_is_running
running_there w on = elim (Option-cases (read_pid_file w)) [
  | inl nothing ↦ ground arith
  | inr (pid, found) ↦ (pid, found, ground arith)
]

not_running_now : (w : World) → read_pid_file w ≡ none → service_is_running w ≡ false
unfolding service_is_running
not_running_now w h = ground arith

-- `service_stop` has one of three ends. No process id can be read, and nothing changes; or the
-- process of the PID file was there, was sent the only signal, and the file is gone if it can be
-- removed, with success; or the process of the file does not take the signal, nothing changes, and
-- an error is reported.
pub service_stop_lem :
    (w : World) (ends : Bool)
    → let (s, w') = service_stop w ends in
      ((s ≡ not_running) × (read_pid_file w ≡ none) × (w' ≡ w))
      ⊎ (((s ≡ success) × IsStopped w w')
          ⊎ ((s ≡ error) × (service_is_running w ≡ false) × (w' ≡ w)))
unfolding service_stop service_is_running terminate
service_stop_lem w ends = elim (Option-cases (read_pid_file w)) [
  | inl nothing ↦ ground arith
  | inr (pid, found) ↦ elim (Bool-cases (answers_signal w pid)) [
    | inl there ↦
        let done = stopped_there w pid ends found there in
        inr (
          inl (
            ap (λ (out : ServiceStatus × World). out.0) done,
            subst (IsStopped w) (sym (ap (λ (out : ServiceStatus × World). out.1) done)) (record {
              pid = pid;
              read = found;
              there = there;
              signalled = signals_kept w pid ends;
              gone = removed (terminate w pid ends);
            }),
          ))
    | inr lost ↦ ground arith
  ]
]

still_removable :
    (w : World) (pid : ℕ) (ends : Bool) → (terminate w pid ends).removable ≡ w.removable
unfolding terminate
still_removable w pid ends = refl

-- A start and a stop: after a start with success a stop succeeds, and no service runs any more if
-- the PID file can be removed.
pub start_stop_service :
    (w : World) (b : Boot) (ends : Bool)
    → (service_start w b).0 ≡ success
    → (service_start w b).1.removable ≡ true
    → let (s, w') = service_stop (service_start w b).1 ends in
      (s ≡ success) × (service_is_running w' ≡ false)
start_stop_service w b ends started clear =
    let w' = (service_start w b).1 in
    let (pid, found, there) = running_there w' (ground (arith, service_start_lem w b)) in
    let gone = removed (terminate w' pid ends) in
    rw (stopped_there w' pid ends found there) (
      refl,
      not_running_now (remove_pid_file (terminate w' pid ends))
          (ground (arith, gone, still_removable w' pid ends)),
    )

stale_stays :
    (w : World) (pid : ℕ) (ends : Bool) (b : Boot)
    → read_pid_file w ≡ some pid
    → answers_signal w pid ≡ false
    → (service_restart w ends b ≡ (error, w)) × (service_is_running w ≡ false)
unfolding service_restart service_stop service_is_running
stale_stays w pid ends b found lost = ground arith

-- A PID file that a daemon has left behind (its process is gone, or may not be signalled) makes a
-- restart fail: it returns an error and changes nothing. On the same machine and with the same
-- daemon, whose id is positive and an `int` and may be signalled, a start alone succeeds, and the
-- service runs: the PID file can be written.
pub restart_stale :
    (w : World) (pid new : ℕ) (ends : Bool) (calls : DaemonCalls)
    → read_pid_file w ≡ some pid
    → answers_signal w pid ≡ false
    → init_daemon calls ≡ some new
    → w.path_known ≡ true
    → w.writable ≡ true
    → 1 ≤ new
    → new < 2 ^ 31
    → w.permitted new ≡ true
    → (service_restart w ends (boot calls) ≡ (error, w))
      × (let (s, w') = service_start w (boot calls) in
          (s ≡ success) × (read_pid_file w' ≡ some new) × (service_is_running w' ≡ true))
restart_stale w pid new ends calls found lost up known can_write positive small allowed =
    let (fails, off) = stale_stays w pid ends (boot calls) found lost in
    (fails, service_start_succeeds w calls new off up known can_write positive small allowed)
