-- ===== src/Control.antt =====
-- The application volumes of the control program (src/app_volume_control.c): the fixed array of
-- `AppVolumeList`, walked by index, and the requests that each change sends to the IPC server. The
-- lock makes each operation one step. What the socket and the clock answer is a parameter.
pub mod Array
pub mod Entries
pub mod Loops
pub mod Invariant
pub mod Spec
pub mod Writes
pub mod Refine
pub mod Listing
mod Examples
use audioctl.Base.{
  ℕ, zero, suc, ◌+◌, ◌-◌, Bool, true, false, not, ◌&&◌, Option, none, some, List, [], ◌∷◌, get_or,
  set, take, replicate, ◌==◌, leb, if◌then◌else◌,
}
use audioctl.Base.Float.{Float32, f_zero, f_one}
use audioctl.Base.Bytes.{Bytes}
use audioctl.Base.Status.{OsStatus, no_err, minus_one, param_err, mem_full_error}
use audioctl.Ipc.Registry.{clamp_volume}
use audioctl.Ipc.Registry.Names.{app_name_of}
use audioctl.Ipc.Client.{
  ClientContext, Attempt, Exchange, ipc_client_init, ipc_client_connect, ipc_client_is_connected,
}
use audioctl.Ipc.Client.Requests.{
  ipc_client_register_app, ipc_client_unregister_app, ipc_client_set_app_volume,
  ipc_client_set_app_mute,
}
use audioctl.Ipc.Client.Reconnect.{ipc_client_should_reconnect, ipc_client_reconnect}
use Array.{
  AppVolumeInfo, AppVolumeList, active_loop, blank, empty_list, entry_at, find_entry_unlocked,
  find_loop, find_or_create_entry, max_entries, new_entry, remove_at, shift_loop, write_at,
}

-- The static variables of the file.
pub record Control : Type 0 where
  pub volumes : AppVolumeList
  pub initialized : Bool
  pub ipc_client : ClientContext
  pub ipc_initialized : Bool

unfoldable pub app_volume_control_init : Control → Control
app_volume_control_init g =
    if g.initialized then g else record g { volumes = empty_list; initialized = true }

unfoldable pub app_volume_control_cleanup : Control → Control
app_volume_control_cleanup g =
    if not g.initialized then g else record g { volumes = empty_list; initialized = false }

-- What a request to the server meets: an attempt to connect, the time, a ping and a second attempt
-- for the reconnection, whether a buffer can be allocated, and the exchange of the request.
pub record Link : Type 0 where
  pub attempt : Attempt
  pub now : ℕ
  pub ping : Exchange
  pub again : Attempt
  pub allocated : Bool
  pub request : Exchange

-- The flag is true for `noErr`. After a reconnection, too, the result is -1.
unfoldable pub ensure_ipc_client_connected : Control → Link → Bool × Control
ensure_ipc_client_connected g link =
    let ctx = if g.ipc_initialized then g.ipc_client else ipc_client_init in
    if ipc_client_is_connected ctx
    then (true, record g { ipc_client = ctx; ipc_initialized = true })
    else (let (done, ctx') = ipc_client_connect ctx link.attempt in
        let (wanted, ctx'') = ipc_client_should_reconnect ctx' link.now link.ping in
        if done then (true, record g { ipc_client = ctx'; ipc_initialized = true }) else (
          false,
          record g {
            ipc_client = if wanted then (ipc_client_reconnect ctx'' link.again).2 else ctx'';
            ipc_initialized = true;
          },
        ))

-- A request by the connected client, and nothing without one.
abbrev pub synced : Control → Link → (ClientContext → Bool × ClientContext) → Control
synced g link send =
    let (on, g') = ensure_ipc_client_connected g link in
    if on then record g' { ipc_client = (send g'.ipc_client).1 } else g'

-- A change of the entry of a process: -1 if there is none.
abbrev pub change_entry :
    Control → ℕ → (AppVolumeInfo → AppVolumeInfo) → (Control → Control) → OsStatus × Control
change_entry g pid f sync = elim (find_entry_unlocked g.volumes pid) [
  | none ↦ (minus_one, g)
  | some i ↦ (no_err, sync (record g { volumes = write_at g.volumes i (f (entry_at g.volumes i)) }))
]

unfoldable pub app_volume_set : Control → ℕ → Float32 → Link → OsStatus × Control
app_volume_set g pid volume link =
    let v = clamp_volume volume in
    change_entry g pid (λ e. record e { volume = v })
      (λ g'. synced g' link (λ ctx. ipc_client_set_app_volume ctx pid v link.request))

unfoldable pub app_volume_set_mute : Control → ℕ → Bool → Link → OsStatus × Control
app_volume_set_mute g pid mute link =
    change_entry g pid (λ e. record e { is_muted = mute })
      (λ g'. synced g' link (λ ctx. ipc_client_set_app_mute ctx pid mute link.request))

unfoldable pub app_volume_set_active : Control → ℕ → Bool → OsStatus × Control
app_volume_set_active g pid active =
    change_entry g pid (λ e. record e { is_active = active }) (λ g'. g')

-- `app_volume_get` and `app_volume_get_mute`; the flag says whether the out pointer is given.
unfoldable pub app_volume_get : Control → ℕ → Bool → OsStatus × Option Float32
app_volume_get g pid out_volume =
    if not out_volume then (param_err, none) else elim (find_entry_unlocked g.volumes pid) [
      | none ↦ (minus_one, none)
      | some i ↦ (no_err, some ((entry_at g.volumes i).volume))
    ]

unfoldable pub app_volume_get_mute : Control → ℕ → Bool → OsStatus × Option Bool
app_volume_get_mute g pid out_mute =
    if not out_mute then (param_err, none) else elim (find_entry_unlocked g.volumes pid) [
      | none ↦ (minus_one, none)
      | some i ↦ (no_err, some ((entry_at g.volumes i).is_muted))
    ]

-- "Unknown" and its null.
abbrev unknown : Bytes
unknown = 85 ∷ 110 ∷ 107 ∷ 110 ∷ 111 ∷ 119 ∷ 110 ∷ 0 ∷ []

abbrev pub app_name : Option Bytes → Option Bytes → Bytes
app_name bundle_id (some name) = name
app_name (some bundle_id) none = bundle_id
app_name none none = unknown

-- The two calls of `strncpy`: a null pointer leaves the field as it is.
abbrev pub copied : Option Bytes → Bytes → Bytes
copied none field = field
copied (some string) field = app_name_of string

abbrev pub described : Option Bytes → Option Bytes → AppVolumeInfo → AppVolumeInfo
described bundle_id name e = record e {
  bundle_id = copied bundle_id e.bundle_id;
  name = copied name e.name;
  is_active = true;
}

-- From the entry that `find_or_create_entry` gives on. The strings have their final nulls.
abbrev pub register_at :
    Control → ℕ → Option Bytes → Option Bytes → Link → Option ℕ × AppVolumeList → OsStatus × Control
register_at g pid bundle_id name link (none, l) = (minus_one, g)
register_at g pid bundle_id name link (some i, l) =
    let e = described bundle_id name (entry_at l i) in
    (
      no_err,
      synced (record g { volumes = write_at l i e }) link
          (λ ctx.
            ipc_client_register_app ctx pid (app_name bundle_id name) e.volume e.is_muted
              link.allocated link.request),
    )

unfoldable pub app_volume_register :
    Control → ℕ → Option Bytes → Option Bytes → Link → OsStatus × Control
app_volume_register g pid bundle_id name link =
    register_at g pid bundle_id name link (find_or_create_entry g.volumes pid)

-- The outer loop stops at the entry that `find_entry_unlocked` finds.
unfoldable pub app_volume_unregister : Control → ℕ → Link → OsStatus × Control
app_volume_unregister g pid link = elim (find_entry_unlocked g.volumes pid) [
  | none ↦ (minus_one, g)
  | some i ↦ (
    no_err,
    synced (record g { volumes = remove_at g.volumes i }) link
        (λ ctx. ipc_client_unregister_app ctx pid link.request),
  )
]

-- The list put out, `none` for a null pointer; the flags say whether both out pointers are given
-- and whether the copy can be allocated.
unfoldable pub app_volume_get_all : Control → Bool → Bool → OsStatus × Option (List AppVolumeInfo)
app_volume_get_all g pointers allocated =
    if not pointers
    then (param_err, none)
    else if g.volumes.count == 0
    then (no_err, none)
    else if not allocated
    then (mem_full_error, none)
    else (no_err, some (take g.volumes.count g.volumes.entries))

unfoldable pub app_volume_find : Control → ℕ → Option AppVolumeInfo
app_volume_find g pid = elim (find_entry_unlocked g.volumes pid) [
  | none ↦ none
  | some i ↦ some (entry_at g.volumes i)
]

unfoldable pub app_volume_get_active_count : Control → ℕ
app_volume_get_active_count g = active_loop g.volumes.entries g.volumes.count 0

-- `app_volume_cli_set` and `app_volume_cli_mute`, which report that the feature is not there.
unfoldable pub app_volume_cli_set : Bytes → Float32 → ℕ
app_volume_cli_set app_name_or_pid volume = 1

unfoldable pub app_volume_cli_mute : Bytes → Bool → ℕ
app_volume_cli_mute app_name_or_pid mute = 1
