-- ===== src/Base/Status.antt =====
-- The `OSStatus` codes that the program returns by name, and any other code of the audio framework
-- that it passes on. The numbers behind the names are the framework's.
use Prim.Native.Nat.{ℕ}
use mathlib.Core.Bool.{Bool, true, false}

pub data OsStatus : Type 0 where
  no_err : OsStatus
  minus_one : OsStatus
  param_err : OsStatus
  mem_full_error : OsStatus
  illegal_operation_error : OsStatus
  not_running_error : OsStatus
  bad_device_error : OsStatus
  bad_object_error : OsStatus
  other : ℕ → OsStatus

-- `status == noErr`
abbrev pub is_no_err : OsStatus → Bool
is_no_err no_err = true
is_no_err _ = false
