-- ===== src/Cli/Switch.antt =====
-- `audioctl set` with a device number (src/main.c): a new default device, or a new binding while the
-- virtual device is the default output.
use audioctl.Base.{
  ◌^◌, ◌<◌, ◌⊎◌, inl, inr, Bool-cases, refl, ℕ, ◌≤◌, ◌≡◌, ap, Bool, true, false, not, Option, none,
  some, List, [], ◌∷◌, length, if◌then◌else◌, arith,
}
use audioctl.Base.Bytes.{Bytes}
use audioctl.Base.Status.{OsStatus, no_err, is_no_err}
use audioctl.Manager.Binding.{
  IsOneLine, save_bound_physical_device, get_bound_physical_device_uid, get-save_bound,
}
use audioctl.Base.Decimal.{print_int}
use audioctl.Cli.Numbers.{parse_device_id, parse_device_id_lem}
use audioctl.Cli.Route.{route, main, router_arguments, main-router_arguments}

-- What the calls of the command answer: whether the virtual device is the default output, whether the
-- binding file can be written; of each device its information, whether its transport is virtual, its
-- UID, and the result of `setDeviceActive`; whether the program knows its own path, and whether the
-- router can be started.
pub record SwitchCalls : Type 0 where
  pub virtual_active : Bool
  pub writable : Bool
  pub info : ℕ → OsStatus
  pub virtual_transport : ℕ → Bool
  pub device_uid : ℕ → Option Bytes
  pub path_known : Bool
  pub router_started : Bool
  pub active : ℕ → OsStatus

pub data Deed : Type 0 where
  kill_router : Deed
  spawn_router : List Bytes → Deed
  activate_device : ℕ → Deed

-- The exit status, the binding file, and what was done.
abbrev pub Outcome : Type 0
Outcome = ℕ × Option Bytes × List Deed

unfoldable pub rebind : SwitchCalls → ℕ → Option Bytes → Outcome
rebind a device file =
    if a.virtual_transport device then (1, file, []) else elim (a.device_uid device) [
      | none ↦ (1, file, [])
      | some uid ↦
          let file' = (save_bound_physical_device a.writable uid file).1 in
          if a.path_known
          then (
            if a.router_started then 0 else 1,
            file',
            kill_router ∷ kill_router ∷ spawn_router (router_arguments uid) ∷ [],
          )
          else (0, file', kill_router ∷ [])
    ]

-- The arguments from `argv[2]` on. `spawn_router` kills the router once more.
unfoldable pub handle_device_switch : SwitchCalls → List Bytes → Option Bytes → Outcome
handle_device_switch a (text ∷ []) file = elim (parse_device_id text) [
  | none ↦ (1, file, [])
  | some device ↦
      if not (is_no_err (a.info device))
      then (1, file, [])
      else if a.virtual_active
      then rebind a device file
      else (if is_no_err (a.active device) then 0 else 1, file, activate_device device ∷ [])
]
handle_device_switch a _ file = (1, file, [])

rebound :
    (a : SwitchCalls) (text : Bytes) (device : ℕ) (u : Bytes) (file : Option Bytes)
    → parse_device_id text ≡ some device
    → a.virtual_active ≡ true
    → a.writable ≡ true
    → a.info device ≡ no_err
    → a.virtual_transport device ≡ false
    → a.device_uid device ≡ some u
    → a.path_known ≡ true
    → a.router_started ≡ true
    → handle_device_switch a (text ∷ []) file ≡ (
      0,
      (save_bound_physical_device true u file).1,
      kill_router ∷ kill_router ∷ spawn_router (router_arguments u) ∷ [],
    )
unfolding handle_device_switch rebind
rebound a text device u file number on can_write info physical uid path started = ground (
  arith,
  number,
  on,
  physical,
  uid,
  path,
  started,
  ap is_no_err info,
  ap (λ b. (save_bound_physical_device b u file).1) can_write,
)

switched :
    (a : SwitchCalls) (text : Bytes) (device : ℕ) (file : Option Bytes)
    → parse_device_id text ≡ some device
    → a.virtual_active ≡ false
    → a.info device ≡ no_err
    → a.active device ≡ no_err
    → handle_device_switch a (text ∷ []) file ≡ (0, file, activate_device device ∷ [])
unfolding handle_device_switch
switched a text device file number off info active =
    ground (arith, number, off, ap is_no_err info, ap is_no_err active)

numbered :
    (device : ℕ)
    → 1 ≤ device
    → device < 2 ^ 31
    → parse_device_id (print_int device []) ≡ some device
numbered device positive small = (parse_device_id_lem [] device (omega (arith, positive)) small).0

-- `audioctl set N` with the decimal digits of a number from 1 to 2 ^ 31 - 1, where the device of that
-- number has a UID of 1 to 255 bytes without a null or a newline and its calls succeed. While the
-- virtual device is the default output and the files and the start of the router are possible, the
-- binding file then holds the UID of that device, and the router that is started routes to it; while
-- it is not, the binding stays and that device is made the default.
pub handle_device_switch_binds :
    (a : SwitchCalls) (device c : ℕ) (s : Bytes) (file : Option Bytes)
    → 1 ≤ device
    → device < 2 ^ 31
    → a.writable ≡ true
    → a.info device ≡ no_err
    → a.virtual_transport device ≡ false
    → a.device_uid device ≡ some (c ∷ s)
    → a.active device ≡ no_err
    → a.path_known ≡ true
    → a.router_started ≡ true
    → IsOneLine (c ∷ s)
    → length (c ∷ s) ≤ 255
    → let (status, file', deeds) = handle_device_switch a (print_int device [] ∷ []) file in
      (status ≡ 0)
      × (main (router_arguments (c ∷ s)) ≡ route (c ∷ s))
      × (((a.virtual_active ≡ true)
            × (get_bound_physical_device_uid 256 file' ≡ some (c ∷ s))
            × (deeds ≡ kill_router ∷ kill_router ∷ spawn_router (router_arguments (c ∷ s)) ∷ []))
          ⊎ ((a.virtual_active ≡ false) × (file' ≡ file) × (deeds ≡ activate_device device ∷ [])))
handle_device_switch_binds a device c s file positive small can_write info physical uid active path
      started plain fits =
    elim (Bool-cases a.virtual_active) [
      | inl on ↦
          rw
            (rebound a (print_int device []) device (c ∷ s) file number on can_write info physical
              uid path started)
            (refl, routes, inl (on, get-save_bound c s file plain fits, refl))
      | inr off ↦
          rw (switched a (print_int device []) device file number off info active)
            (refl, routes, inr (off, refl, refl))
    ]
  where
    number : parse_device_id (print_int device []) ≡ some device
    number = numbered device positive small

    routes : main (router_arguments (c ∷ s)) ≡ route (c ∷ s)
    routes = main-router_arguments (c ∷ s) (ground arith) fits
