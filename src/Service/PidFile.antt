-- ===== src/Service/PidFile.antt =====
-- The PID file as it is written and read (src/service_manager.c).
use audioctl.Base.{
  ℕ, ◌^◌, ◌≤◌, ◌<◌, ◌≡◌, refl, ap, ◌∙◌, sym, true, false, some, [], ◌∷◌, ◌++◌, arith,
}
use audioctl.Base.Bytes.{Bytes}
use audioctl.Base.Decimal.{print_int, number, strtol, strtol-print_int}
use audioctl.Base.Line.{c_string, fgets, print_digits-IsPlain, fgets-line}
use audioctl.Service.{World, read_pid_file, write_pid_file}

written :
    (pid : ℕ)
    → pid < 2 ^ 31
    → (line : Bytes) × (print_int pid (10 ∷ []) ≡ line)
      × (fgets 32 line ≡ some line)
      × (strtol (c_string line) ≡ number false pid (10 ∷ []))
written pid small =
    let (s, plain, size, same) = print_digits-IsPlain 10 pid (10 ∷ []) in
    let (l, t) = fgets-line s plain (omega arith) in
    (s ++ (10 ∷ []), same, l, ap strtol (t ∙ sym same) ∙ strtol-print_int pid 10 [] small refl)

-- The process id that `write_pid_file` has written is the one that `read_pid_file` reads, if the
-- path is known, the file can be opened and the id is positive and an `int`.
pub read-write_pid_file :
    (w : World) (pid : ℕ)
    → w.path_known ≡ true
    → w.writable ≡ true
    → 1 ≤ pid
    → pid < 2 ^ 31
    → read_pid_file (write_pid_file w pid).1 ≡ some pid
unfolding read_pid_file write_pid_file
read-write_pid_file w pid known can_write positive small =
    let (line, same, got, value) = written pid small in
    rw (known, can_write, same, got, value) (ground arith)

-- Whatever the file holds, the id read from it is positive and an `int`: no signal goes to a group
-- of processes or to all of them.
pub read_pid_file_bounds :
    (w : World) (pid : ℕ) → read_pid_file w ≡ some pid → (1 ≤ pid) × (pid < 2 ^ 31)
unfolding read_pid_file
read_pid_file_bounds w pid h = ground arith
