-- ===== src/Devices/Info.antt =====
-- The information of a device and of all devices (src/audio_control.c: getDeviceInfo, getDeviceList),
-- and the names of transports and formats. The codes of the framework are by name.
pub mod Consistent
pub mod Shown
use audioctl.Base.{
  ℕ, zero, suc, ◌+◌, ◌/◌, ◌%◌, ◌^◌, ◌<◌, ◌≡◌, refl, ap, ◌∙◌, Bool, true, false, not, ◌&&◌, ◌||◌,
  Option, none, some, List, [], ◌∷◌, map, All, ◌==◌, ltb, add32, if◌then◌else◌, arith, Bool-cases,
  inl, inr, ◌⊎◌,
}
use audioctl.Base.Float.{Float32, f_zero}
use audioctl.Base.Bytes.{Bytes, codes}
use audioctl.Base.Status.{OsStatus, no_err, is_no_err}
use audioctl.Cli.Options.{
  DeviceType, unknown_type, input_type, output_type, input_output_type, is_output, is_input_output,
  is_input, Device, ProgramOptions, is_device_matched,
}
use audioctl.Devices.{
  Hardware, input_scope, output_scope, bound_device, is_virtual, get_volume_info,
  get_channel_count_for_scope, device_type, check_device_running_status,
}
use audioctl.Devices.Volume.{volume_behind, get_volume_info_lem}

pub data Transport : Type 0 where
  built_in aggregate virtual usb fire_wire bluetooth hdmi display_port air_play : Transport
  continuity_wired continuity_wireless : Transport
  other_transport : ℕ → Transport

-- The other answers of CoreAudio: the name with its status, the sample rate, the bits and the flags
-- of the format, the mute state, and the transport. A call that fails gives `none`.
pub record Details : Type 0 where
  pub name_of : ℕ → OsStatus × Bytes
  pub sample_rate_of : ℕ → Option ℕ
  pub format_of : ℕ → Option (ℕ × ℕ)
  pub mute_of : ℕ → Option ℕ
  pub transport_of : ℕ → Option Transport

-- `AudioDeviceInfo`
pub record DeviceInfo : Type 0 where
  pub device_id : ℕ
  pub name : Bytes
  pub volume : Float32
  pub is_muted : Bool
  pub sample_rate : ℕ
  pub kind : DeviceType
  pub input_channel_count : ℕ
  pub output_channel_count : ℕ
  pub channel_count : ℕ
  pub bits_per_channel : ℕ
  pub format_flags : ℕ
  pub transport_type : Transport
  pub is_running : Bool
  pub has_volume_control : Bool

-- After `memset`.
abbrev pub zero_info : ℕ → DeviceInfo
zero_info device = record {
  device_id = device;
  name = [];
  volume = f_zero;
  is_muted = false;
  sample_rate = 0;
  kind = unknown_type;
  input_channel_count = 0;
  output_channel_count = 0;
  channel_count = 0;
  bits_per_channel = 0;
  format_flags = 0;
  transport_type = other_transport 0;
  is_running = false;
  has_volume_control = false;
}

abbrev pub or_zero : Option ℕ → ℕ
or_zero none = 0
or_zero (some n) = n

abbrev pub with_format : Option (ℕ × ℕ) → DeviceInfo → DeviceInfo
with_format none i = i
with_format (some (bits, flags)) i = record i { bits_per_channel = bits; format_flags = flags }

unfoldable pub get_basic_audio_properties : Details → ℕ → DeviceInfo → DeviceInfo
get_basic_audio_properties dt device i =
    with_format (dt.format_of device)
      (record i { sample_rate = or_zero (dt.sample_rate_of device) })

unfoldable pub get_device_mute_state : Details → ℕ → DeviceInfo → DeviceInfo
get_device_mute_state dt device i =
    if not (is_output i.kind) && not (is_input_output i.kind)
    then i
    else record i { is_muted = not (or_zero (dt.mute_of device) == 0) }

abbrev pub is_continuity : Transport → Bool
is_continuity continuity_wired = true
is_continuity continuity_wireless = true
is_continuity _ = false

abbrev pub with_transport : Option Transport → DeviceInfo → DeviceInfo
with_transport none i = i
with_transport (some t) i = record i {
  transport_type = t;
  has_volume_control = if is_continuity t then false else i.has_volume_control;
}

unfoldable pub get_device_transport_type : Details → ℕ → DeviceInfo → DeviceInfo
get_device_transport_type dt device i = with_transport (dt.transport_of device) i

unfoldable pub get_device_status : Details → ℕ → DeviceInfo → DeviceInfo
get_device_status dt device i =
    get_device_transport_type dt device (get_device_mute_state dt device i)

-- The name, the channels, the type and the volume.
abbrev pub measured : Hardware → ℕ → Bytes → Float32 → Bool → DeviceInfo
measured hw device name volume control =
    let inputs = get_channel_count_for_scope hw device input_scope in
    let outputs = get_channel_count_for_scope hw device output_scope in
    record (zero_info device) {
      name = name;
      input_channel_count = inputs;
      output_channel_count = outputs;
      channel_count = add32 inputs outputs;
      kind = device_type hw device;
      volume = volume;
      has_volume_control = control;
    }

unfoldable pub with_running : Hardware → ℕ → DeviceInfo → DeviceInfo
with_running hw device i = record i { is_running = check_device_running_status hw device i.kind }

module _ (scaled : Float32 → Float32) (hw : Hardware) (dt : Details) where
  -- With the depth of `getVolumeInfo`, `none` if that is not enough.
  unfoldable pub get_device_info : ℕ → ℕ → Option (OsStatus × DeviceInfo)
  get_device_info fuel device =
      let (status, name) = dt.name_of device in
      if not (is_no_err status)
      then some (status, zero_info device)
      else elim (get_volume_info fuel scaled hw device (device_type hw device)) [
        | none ↦ none
        | some (volume, control) ↦ some (
          no_err,
          with_running hw device (
              get_device_status dt device
                (get_basic_audio_properties dt device (measured hw device name volume control))),
        )
      ]

  -- The loop over the ids; the status of `getDeviceInfo` is not looked at.
  unfoldable pub get_infos : ℕ → List ℕ → Option (List DeviceInfo)
  get_infos fuel [] = some []
  get_infos fuel (d ∷ ds) =
      let rest = get_infos fuel ds in
      elim (get_device_info fuel d) [
        | none ↦ none
        | some (status, i) ↦ elim rest [ none ↦ none | some is ↦ some (i ∷ is) ]
      ]

  -- The status of the size, and the status and the ids of the second call.
  unfoldable pub get_device_list :
      ℕ → OsStatus → OsStatus → List ℕ → Option (OsStatus × List DeviceInfo)
  get_device_list fuel size_status ids_status ids =
      if not (is_no_err size_status)
      then some (size_status, [])
      else if not (is_no_err ids_status)
      then some (ids_status, [])
      else elim (get_infos fuel ids) [ none ↦ none | some is ↦ some (no_err, is) ]

unfoldable pub get_transport_type_name : Transport → Bytes
get_transport_type_name built_in = codes "Built-in"
get_transport_type_name aggregate = codes "Aggregate"
get_transport_type_name virtual = codes "Virtual"
get_transport_type_name usb = codes "USB"
get_transport_type_name fire_wire = codes "FireWire"
get_transport_type_name bluetooth = codes "Bluetooth"
get_transport_type_name hdmi = codes "HDMI"
get_transport_type_name display_port = codes "DisplayPort"
get_transport_type_name air_play = codes "AirPlay"
get_transport_type_name continuity_wired = codes "Continuity Camera"
get_transport_type_name continuity_wireless = codes "Continuity Camera"
get_transport_type_name (other_transport n) = codes "Unknown"

-- The flags are bits 0, 2 and 5.
abbrev pub has_flag : ℕ → ℕ → Bool
has_flag flags bit = flags / 2 ^ bit % 2 == 1

unfoldable pub get_format_flags_description : ℕ → Bytes
get_format_flags_description flags =
    if has_flag flags 0
    then codes "Float"
    else if has_flag flags 2
    then codes "Signed Integer"
    else if has_flag flags 5
    then codes "Non-interleaved"
    else codes "Unknown"
