-- ===== src/Cli/Print.antt =====
-- What `audioctl list` prints of a device (src/main.c: printDeviceInfo and its parts), as data. The
-- factor 100 of a volume is left to the printing.
use audioctl.Base.{
  ℕ, ◌≡◌, Bool, true, false, not, ◌||◌, Option, none, some, ◌==◌, ltb, take, if◌then◌else◌, arith,
  Bool-cases, inl, inr,
}
use audioctl.Base.Float.{Float32}
use audioctl.Base.Bytes.{Bytes, codes}
use audioctl.Base.Status.{is_no_err}
use audioctl.Manager.Binding.{get_bound_physical_device_uid}
use audioctl.Cli.{same_string}
use audioctl.Cli.Options.{
  ProgramOptions, DeviceType, input_type, output_type, input_output_type, unknown_type,
}
use audioctl.Devices.{Hardware, find_device_by_uid}
use audioctl.Devices.Info.{
  Transport, Details, DeviceInfo, virtual, is_continuity, get_device_info, get_transport_type_name,
  get_format_flags_description,
}
use audioctl.Devices.Info.Consistent.{IsConsistent}

-- The type with the counts of channels that are shown.
pub data TypeText : Type 0 where
  input_channels output_channels : ℕ → TypeText
  both_channels : ℕ → ℕ → ℕ → TypeText
  unknown : TypeText

-- `none` is a volume that cannot be controlled; an output shows its mute state too.
pub data VolumeText : Type 0 where
  no_volume : VolumeText
  input_volume : Option Float32 → VolumeText
  output_volume : Option Float32 → Bool → VolumeText

pub data BindingText : Type 0 where
  not_virtual not_bound : BindingText
  bound_to : Bytes → BindingText

pub record DeviceText : Type 0 where
  pub device_id : ℕ
  pub name : Bytes
  pub kind : TypeText
  pub transport : Bytes
  pub binding : BindingText
  pub volume : VolumeText
  pub sample_rate : ℕ
  pub format : Option (ℕ × Bytes)
  pub in_use : Bool

abbrev pub type_text : DeviceType → DeviceInfo → TypeText
type_text input_type i = input_channels i.input_channel_count
type_text output_type i = output_channels i.output_channel_count
type_text input_output_type i =
    both_channels i.input_channel_count i.output_channel_count i.channel_count
type_text unknown_type i = unknown

unfoldable pub print_device_type_and_channels : DeviceInfo → TypeText
print_device_type_and_channels i = type_text i.kind i

abbrev pub adjustable : Bool → DeviceInfo → Option Float32
adjustable can i = if can then some i.volume else none

abbrev pub volume_text : DeviceType → DeviceInfo → VolumeText
volume_text input_type i =
    input_volume (adjustable (not (not i.has_volume_control || is_continuity i.transport_type)) i)
volume_text output_type i = output_volume (adjustable i.has_volume_control i) i.is_muted
volume_text input_output_type i = output_volume (adjustable i.has_volume_control i) i.is_muted
volume_text unknown_type i = no_volume

unfoldable pub print_volume_info : DeviceInfo → VolumeText
print_volume_info i = volume_text i.kind i

abbrev pub is_virtual_transport : Transport → Bool
is_virtual_transport virtual = true
is_virtual_transport _ = false

-- The name of a device in the list of the system, and otherwise the UID; `none` where `getDeviceInfo`
-- does not end at the depth.
unfoldable pub get_device_name_by_uid :
    (Float32 → Float32) → Hardware → Details → ℕ → Bytes → Option (Bool × Bytes)
get_device_name_by_uid scaled hw dt fuel uid =
    let device = find_device_by_uid hw uid in
    if device == 0
    then some (false, take 255 uid)
    else elim (get_device_info scaled hw dt fuel device) [
      | none ↦ none
      | some (status, i) ↦
          some (if is_no_err status then (true, take 255 i.name) else (false, take 255 uid))
    ]

abbrev pub bound_text : (Float32 → Float32) → Hardware → Details → ℕ → Bytes → Option BindingText
bound_text scaled hw dt fuel uid =
    let device = find_device_by_uid hw uid in
    if device == 0 then some (bound_to uid) else elim (get_device_info scaled hw dt fuel device) [
      | none ↦ none
      | some (status, i) ↦ some (bound_to (if is_no_err status then i.name else uid))
    ]

-- With the binding file.
unfoldable pub binding_text :
    (Float32 → Float32) → Hardware → Details → ℕ → Option Bytes → DeviceInfo → Option BindingText
binding_text scaled hw dt fuel file i =
    if is_virtual_transport i.transport_type
    then elim (get_bound_physical_device_uid 256 file) [
      | none ↦ some not_bound
      | some uid ↦ bound_text scaled hw dt fuel uid
    ]
    else some not_virtual

abbrev pub format_text : DeviceInfo → Option (ℕ × Bytes)
format_text i =
    if ltb 0 i.bits_per_channel
    then some (i.bits_per_channel, get_format_flags_description i.format_flags)
    else none

unfoldable pub print_device_info :
    (Float32 → Float32) → Hardware → Details → ℕ → Option Bytes → DeviceInfo → Option DeviceText
print_device_info scaled hw dt fuel file i = elim (binding_text scaled hw dt fuel file i) [
  | none ↦ none
  | some binding ↦ some (record {
    device_id = i.device_id;
    name = i.name;
    kind = print_device_type_and_channels i;
    transport = get_transport_type_name i.transport_type;
    binding = binding;
    volume = print_volume_info i;
    sample_rate = i.sample_rate;
    format = format_text i;
    in_use = i.is_running;
  })
]

unfoldable pub handle_version_command : Bytes → Bool
handle_version_command arg = same_string arg (codes "--version") || same_string arg (codes "-v")

pub data Direction : Type 0 where
  any_direction inputs outputs : Direction

-- The words of the line with the count.
unfoldable pub print_matched_device_count : ℕ → ProgramOptions → ℕ × Bool × Direction
print_matched_device_count n opts = (
  n,
  opts.show_only_active,
  if opts.show_only_input then inputs else if opts.show_only_output then outputs else any_direction,
)

-- By the channels alone.
abbrev pub channel_text : DeviceInfo → VolumeText
channel_text i =
    if ltb 0 i.output_channel_count
    then output_volume (adjustable i.has_volume_control i) i.is_muted
    else if ltb 0 i.input_channel_count
    then input_volume (adjustable i.has_volume_control i)
    else no_volume

-- The volume that is printed depends on the channels and the volume control alone, for information
-- whose fields fit together, as `getDeviceInfo` gives it: the printing's own test for a Continuity
-- Camera never decides. A volume is shown exactly if it can be controlled.
pub print_volume_info-channel_text :
    (i : DeviceInfo) → IsConsistent i → print_volume_info i ≡ channel_text i
unfolding print_volume_info
print_volume_info-channel_text i v = elim (Bool-cases (is_continuity i.transport_type)) [
  | inl camera ↦ rw v.typed (ground (arith, camera, v.camera camera))
  | inr other ↦ rw v.typed (ground (arith, other))
]
