-- ===== src/Devices.antt =====
-- The devices of CoreAudio as the program sees them (src/audio_control.c): finding one by its UID,
-- its type, its volume and its state, and setting its volume or making it the default. What the calls
-- of CoreAudio answer is a parameter.
pub mod Find
pub mod Volume
pub mod Change
pub mod Info
mod Examples
use audioctl.Base.{
  ℕ, zero, suc, ◌+◌, ◌-◌, Bool, true, false, not, ◌&&◌, ◌||◌, Option, none, some, List, [], ◌∷◌,
  ◌==◌, ltb, add32, if◌then◌else◌,
}
use audioctl.Base.Float.{Float32, f_zero, f_one, flt}
use audioctl.Base.Bytes.{Bytes}
use audioctl.Manager.{virtual_uid}
use audioctl.Cli.{same_string}
use audioctl.Cli.Options.{
  DeviceType, unknown_type, input_type, output_type, input_output_type, is_input,
}

-- `kAudioDevicePropertyScopeInput` and `kAudioDevicePropertyScopeOutput`
pub data Scope : Type 0 where
  input_scope output_scope : Scope

-- The answers of CoreAudio: the devices (`none` if a call or the allocation fails), UIDs, whether the
-- volume of an element can be set, volumes, decibels, the channels of each buffer, the default
-- devices, and the state of a device. A call that fails gives `none`, false or no buffers. The last
-- field is the UID of the binding file, as `get_bound_physical_device_uid` reads it.
pub record Hardware : Type 0 where
  pub devices : Option (List ℕ)
  pub uid_of : ℕ → Option Bytes
  pub is_settable : ℕ → Scope → ℕ → Bool
  pub volume_of : ℕ → Scope → ℕ → Option Float32
  pub decibels_of : ℕ → Scope → Option Float32
  pub channels_of : ℕ → Scope → List ℕ
  pub default_of : Scope → Option ℕ
  pub is_alive : ℕ → Bool
  pub runs_in : ℕ → Scope → Bool
  pub processing : ℕ → Scope → Bool
  pub bound_uid : Option Bytes

abbrev pub has_uid : Hardware → Bytes → ℕ → Bool
has_uid hw uid device = elim (hw.uid_of device) [ none ↦ false | some u ↦ same_string u uid ]

unfoldable pub is_virtual : Hardware → ℕ → Bool
is_virtual hw device = has_uid hw virtual_uid device

unfoldable pub first_with_uid : Hardware → Bytes → List ℕ → ℕ
first_with_uid hw uid [] = 0
first_with_uid hw uid (d ∷ ds) = if has_uid hw uid d then d else first_with_uid hw uid ds

unfoldable pub find_device_by_uid : Hardware → Bytes → ℕ
find_device_by_uid hw uid = elim (hw.devices) [ none ↦ 0 | some ds ↦ first_with_uid hw uid ds ]

abbrev pub scope_of : DeviceType → Scope
scope_of kind = if is_input kind then input_scope else output_scope

-- -96.0f
abbrev pub f_minus_96 : Float32
f_minus_96 = 0xc2c0_0000

-- `(volumeDB + 96.0f) / 96.0f` is `scaled`.
abbrev pub from_decibels : (Float32 → Float32) → Option Float32 → Float32 × Bool
from_decibels scaled none = (f_zero, false)
from_decibels scaled (some db) =
    if flt f_zero db
    then (f_one, true)
    else if flt db f_minus_96
    then (f_zero, true)
    else (scaled db, true)

abbrev pub settable_volume : Hardware → ℕ → Scope → ℕ → Option Float32
settable_volume hw device scope element =
    if hw.is_settable device scope element then hw.volume_of device scope element else none

-- The volume of a device that is not the virtual one, and whether it can be controlled.
unfoldable pub own_volume_info : (Float32 → Float32) → Hardware → ℕ → DeviceType → Float32 × Bool
own_volume_info scaled hw device kind =
    let scope = scope_of kind in
    elim (settable_volume hw device scope 0) [
      | some volume ↦ (volume, true)
      | none ↦ elim (settable_volume hw device scope 1) [
        | some volume ↦ (volume, true)
        | none ↦ from_decibels scaled (hw.decibels_of device scope)
      ]
    ]

-- The device that the binding stands for, 0 if there is none.
abbrev pub bound_device : Hardware → ℕ
bound_device hw = elim (hw.bound_uid) [ none ↦ 0 | some uid ↦ find_device_by_uid hw uid ]

-- `getVolumeInfo` to a depth of `fuel` calls of itself; `none` if that is not enough.
unfoldable pub get_volume_info :
    ℕ → (Float32 → Float32) → Hardware → ℕ → DeviceType → Option (Float32 × Bool)
get_volume_info zero scaled hw device kind = none
get_volume_info (suc fuel) scaled hw device kind =
    let bound = get_volume_info fuel scaled hw (bound_device hw) kind in
    if is_virtual hw device
    then (if bound_device hw == 0 then some (f_zero, false) else bound)
    else some (own_volume_info scaled hw device kind)

-- The sum over the buffers, a `UInt32`.
unfoldable pub sum_channels : List ℕ → ℕ
sum_channels [] = 0
sum_channels (n ∷ ns) = add32 n (sum_channels ns)

unfoldable pub get_channel_count_for_scope : Hardware → ℕ → Scope → ℕ
get_channel_count_for_scope hw device scope = sum_channels (hw.channels_of device scope)

unfoldable pub device_type : Hardware → ℕ → DeviceType
device_type hw device =
    let has_input = ltb 0 (get_channel_count_for_scope hw device input_scope) in
    let has_output = ltb 0 (get_channel_count_for_scope hw device output_scope) in
    if has_input && has_output
    then input_output_type
    else if has_input
    then input_type
    else if has_output
    then output_type
    else unknown_type

abbrev pub is_default_device : Hardware → ℕ → Scope → Bool
is_default_device hw device scope = elim (hw.default_of scope) [
  | none ↦ false
  | some d ↦ d == device
]

-- The `switch` for the virtual device, and the one for the others.
abbrev pub virtual_runs : Hardware → ℕ → DeviceType → Bool
virtual_runs hw device input_type = is_default_device hw device input_scope
virtual_runs hw device output_type = is_default_device hw device output_scope
virtual_runs hw device input_output_type =
    is_default_device hw device input_scope || is_default_device hw device output_scope
virtual_runs hw device unknown_type = false

abbrev pub other_runs : Hardware → ℕ → DeviceType → Bool
other_runs hw device input_type =
    hw.runs_in device input_scope || is_default_device hw device input_scope
other_runs hw device output_type =
    hw.runs_in device output_scope || is_default_device hw device output_scope
other_runs hw device input_output_type =
    hw.runs_in device input_scope
    || (hw.runs_in device output_scope
        || (is_default_device hw device input_scope || is_default_device hw device output_scope))
other_runs hw device unknown_type = false

unfoldable pub check_device_running_status : Hardware → ℕ → DeviceType → Bool
check_device_running_status hw device kind =
    if not (hw.is_alive device)
    then false
    else if is_virtual hw device
    then virtual_runs hw device kind
    else hw.processing device (scope_of kind) || other_runs hw device kind
