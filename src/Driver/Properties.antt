-- ===== src/Driver/Properties.antt =====
-- The properties of the plug-in's objects (src/driver/virtual_audio_driver.c): HasProperty,
-- IsPropertySettable, GetPropertyDataSize, GetPropertyData and SetPropertyData. The selectors and
-- the scopes are the framework's, by name; the sizes are those of a 64-bit machine.
pub mod Sizes
use audioctl.Base.{
  ℕ, ◌+◌, ◌-◌, ◌*◌, ◌/◌, Bool, true, false, ◌||◌, Option, none, some, List, [], ◌∷◌, length, ◌==◌,
  ltb, leb, if◌then◌else◌,
}
use audioctl.Base.Bytes.{Bytes, codes}
use audioctl.Base.Status.{OsStatus, no_err}
use audioctl.Driver.Clients.{
  AppVolumeTable, Driver, app_volume_driver_get_table, app_volume_driver_get_client_pids,
}
use audioctl.Driver.Loopback.{Io, device_object_id}

pub data Selector : Type 0 where
  base_class object_class plug_in_device_list : Selector
  device_uid object_name manufacturer device_streams stream_configuration : Selector
  nominal_sample_rate device_icon transport_type : Selector
  can_be_default_device can_be_default_system_device : Selector
  device_is_alive device_is_running app_volumes app_client_list : Selector
  device_latency safety_offset zero_time_stamp_period : Selector
  stream_direction stream_is_active virtual_format physical_format : Selector
  available_virtual_formats available_physical_formats : Selector
  terminal_type starting_channel : Selector
  other_selector : ℕ → Selector

pub data Scope : Type 0 where
  global_scope input_scope output_scope : Scope
  other_scope : ℕ → Scope

abbrev pub plug_in_object_id : ℕ
plug_in_object_id = 1

abbrev pub output_stream_id : ℕ
output_stream_id = 4

abbrev pub input_stream_id : ℕ
input_stream_id = 5

abbrev pub plug_in_has : Selector → Bool
plug_in_has base_class = true
plug_in_has object_class = true
plug_in_has plug_in_device_list = true
plug_in_has _ = false

abbrev pub device_has : Selector → Bool
device_has base_class = true
device_has object_class = true
device_has device_uid = true
device_has object_name = true
device_has manufacturer = true
device_has device_streams = true
device_has stream_configuration = true
device_has nominal_sample_rate = true
device_has device_icon = true
device_has transport_type = true
device_has can_be_default_device = true
device_has can_be_default_system_device = true
device_has device_is_alive = true
device_has device_is_running = true
device_has app_volumes = true
device_has app_client_list = true
device_has device_latency = true
device_has safety_offset = true
device_has zero_time_stamp_period = true
device_has _ = false

abbrev pub stream_has : Selector → Bool
stream_has base_class = true
stream_has object_class = true
stream_has stream_direction = true
stream_has stream_is_active = true
stream_has virtual_format = true
stream_has physical_format = true
stream_has available_virtual_formats = true
stream_has available_physical_formats = true
stream_has terminal_type = true
stream_has starting_channel = true
stream_has _ = false

unfoldable pub has_property : ℕ → Selector → Bool
has_property object s =
    if object == plug_in_object_id
    then plug_in_has s
    else if object == device_object_id
    then device_has s
    else if object == output_stream_id || object == input_stream_id
    then stream_has s
    else false

-- Of every object.
unfoldable pub is_property_settable : Selector → Bool
is_property_settable app_volumes = true
is_property_settable _ = false

-- The branches of GetPropertyDataSize for every object: a CFStringRef, and else a UInt32.
abbrev pub common_size : Selector → ℕ
common_size device_uid = 8
common_size object_name = 8
common_size manufacturer = 8
common_size _ = 4

-- `sizeof (AppVolumeTable)`: two words, and 64 entries of four words and 128 bytes.
abbrev pub table_size : ℕ
table_size = 8 + 64 * (16 + 128)

abbrev pub device_size : Selector → Scope → ℕ
device_size app_volumes scope = table_size
device_size app_client_list scope = 4 + 64 * 4
device_size device_streams global_scope = 4 * 2
device_size device_streams scope = 4
device_size stream_configuration scope = 24 + 16 * 2
device_size device_icon scope = 8
device_size s scope = common_size s

abbrev pub stream_size : Selector → ℕ
stream_size available_virtual_formats = 56
stream_size available_physical_formats = 56
stream_size virtual_format = 40
stream_size physical_format = 40
stream_size base_class = 4
stream_size object_class = 4
stream_size s = common_size s

abbrev pub plug_in_size : Selector → ℕ
plug_in_size plug_in_device_list = 4
plug_in_size s = common_size s

unfoldable pub get_property_data_size : ℕ → Selector → Scope → ℕ
get_property_data_size object s scope =
    if object == device_object_id
    then device_size s scope
    else if object == plug_in_object_id
    then plug_in_size s
    else if object == output_stream_id || object == input_stream_id
    then stream_size s
    else common_size s

pub data ClassId : Type 0 where
  object_class_id plug_in_class_id device_class_id stream_class_id : ClassId

-- Codes of the framework.
pub data Code : Type 0 where
  virtual_transport microphone speaker : Code

pub data FormatFlag : Type 0 where
  is_float is_packed : FormatFlag

-- `AudioStreamBasicDescription` of linear PCM, with the rate in Hz.
pub record Format : Type 0 where
  pub sample_rate : ℕ
  pub format_flags : List FormatFlag
  pub bytes_per_packet : ℕ
  pub frames_per_packet : ℕ
  pub bytes_per_frame : ℕ
  pub channels_per_frame : ℕ
  pub bits_per_channel : ℕ
  pub reserved : ℕ

-- What GetPropertyData writes to the memory of the host. A buffer list is one buffer with its
-- channels and bytes; the last is a count and the process ids behind it.
pub data Value : Type 0 where
  class_id : ClassId → Value
  object_ids : List ℕ → Value
  string_ref url_ref : Bytes → Value
  uint32 : ℕ → Value
  code : Code → Value
  float64 : ℕ → Value
  buffer_list : ℕ → ℕ → Value
  format : Format → Value
  ranged_format : Format → ℕ → ℕ → Value
  volume_table : AppVolumeTable → Value
  process_ids : List ℕ → Value

-- `kDevice_UID`
abbrev pub device_uid_text : Bytes
device_uid_text = codes "0E1D42AE-F2ED-4A48-9624-C770025E32A4"

abbrev pub icon_path : Bytes
icon_path =
    codes "/Library/Audio/Plug-Ins/HAL/VirtualAudioDriver.driver/Contents/Resources/DeviceIcon.icns"

abbrev pub stereo : Format
stereo = record {
  sample_rate = 48000;
  format_flags = is_float ∷ is_packed ∷ [];
  bytes_per_packet = 8;
  frames_per_packet = 1;
  bytes_per_frame = 8;
  channels_per_frame = 2;
  bits_per_channel = 32;
  reserved = 0;
}

-- What is written, if anything, and the new `*outDataSize`.
abbrev pub Answer : Type 0
Answer = Option Value × ℕ

abbrev pub plug_in_data : Selector → ℕ → Answer
plug_in_data base_class size = (some (class_id object_class_id), 4)
plug_in_data object_class size = (some (class_id plug_in_class_id), 4)
plug_in_data plug_in_device_list size = (some (object_ids (device_object_id ∷ [])), 4)
plug_in_data _ size = (none, size)

abbrev pub streams_of : Scope → List ℕ
streams_of output_scope = output_stream_id ∷ []
streams_of input_scope = input_stream_id ∷ []
streams_of _ = output_stream_id ∷ input_stream_id ∷ []

abbrev pub client_list : Driver → ℕ → Answer
client_list g size =
    let pids = app_volume_driver_get_client_pids g ((size - 4) / 4) in
    if ltb size 4 then (none, 4) else (some (process_ids pids), 4 + length pids * 4)

abbrev pub device_data : Driver → Io → Selector → Scope → ℕ → Answer
device_data g io base_class scope size = (some (class_id object_class_id), 4)
device_data g io object_class scope size = (some (class_id device_class_id), 4)
device_data g io device_uid scope size = (some (string_ref device_uid_text), 8)
device_data g io object_name scope size = (some (string_ref (codes "Virtual Audio Device")), 8)
device_data g io manufacturer scope size = (some (string_ref (codes "Virtual Audio Driver")), 8)
device_data g io device_streams scope size =
    (some (object_ids (streams_of scope)), 4 * length (streams_of scope))
device_data g io stream_configuration scope size = (some (buffer_list 2 (1024 * 8)), 24 + 16)
device_data g io nominal_sample_rate scope size = (some (float64 48000), 8)
device_data g io device_is_alive scope size = (some (uint32 1), 4)
device_data g io device_is_running scope size =
    (some (uint32 (if ltb 0 io.io_is_running then 1 else 0)), 4)
device_data g io device_latency scope size = (some (uint32 0), 4)
device_data g io safety_offset scope size = (some (uint32 4096), 4)
device_data g io zero_time_stamp_period scope size = (some (uint32 4096), 4)
device_data g io device_icon scope size = (some (url_ref icon_path), 8)
device_data g io transport_type scope size = (some (code virtual_transport), 4)
device_data g io can_be_default_device scope size = (some (uint32 1), 4)
device_data g io can_be_default_system_device scope size = (some (uint32 1), 4)
device_data g io app_volumes scope size =
    if leb table_size size
    then (some (volume_table (app_volume_driver_get_table g)), table_size)
    else (none, size)
device_data g io app_client_list scope size = client_list g size
device_data g io _ scope size = (none, size)

abbrev pub stream_data : Bool → Selector → ℕ → Answer
stream_data is_input base_class size = (some (class_id object_class_id), 4)
stream_data is_input object_class size = (some (class_id stream_class_id), 4)
stream_data is_input stream_direction size = (some (uint32 (if is_input then 1 else 0)), 4)
stream_data is_input stream_is_active size = (some (uint32 1), 4)
stream_data is_input virtual_format size = (some (format stereo), 40)
stream_data is_input physical_format size = (some (format stereo), 40)
stream_data is_input available_virtual_formats size = (some (ranged_format stereo 48000 48000), 56)
stream_data is_input available_physical_formats size = (some (ranged_format stereo 48000 48000), 56)
stream_data is_input terminal_type size =
    (some (code (if is_input then microphone else speaker)), 4)
stream_data is_input starting_channel size = (some (uint32 1), 4)
stream_data is_input _ size = (none, size)

-- With `*outDataSize` before the call. The status is always 0.
unfoldable pub get_property_data : Driver → Io → ℕ → Selector → Scope → ℕ → Answer
get_property_data g io object s scope size =
    if object == plug_in_object_id
    then plug_in_data s size
    else if object == device_object_id
    then device_data g io s scope size
    else if object == output_stream_id || object == input_stream_id
    then stream_data (object == input_stream_id) s size
    else (none, size)

-- Nothing is stored.
unfoldable pub set_property_data : Driver → ℕ → Selector → Value → OsStatus × Driver
set_property_data g object s v = (no_err, g)
