-- ===== src/Cli/Session.antt =====
-- What the program tells of the virtual device after `audioctl use-virtual`.
use audioctl.Base.{◌≡◌, true, Option, none, some}
use audioctl.Base.Bytes.{Bytes}
use audioctl.Base.Status.{OsStatus}
use audioctl.Manager.Status.{Report, shown_binding}
use audioctl.Control.{Control}

-- A report of virtual-status: the virtual device is the default output and bound to a UID, and the
-- volumes of applications can be controlled.
unfoldable pub IsBoundTo :
    {S : Type 0} → (Bytes → OsStatus × Bytes) → Bytes → Option Report × S → Type 0
IsBoundTo name_of uid (none, s) = ⊥
IsBoundTo name_of uid (some r, s) =
    (r.is_output ≡ true) × (r.bound ≡ shown_binding name_of (some uid)) × (r.control ≡ none)
