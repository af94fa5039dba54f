-- ===== src/Devices/Info/Shown.antt =====
-- What `audioctl list` shows of the devices of the system (src/main.c over src/audio_control.c).
use audioctl.Base.{
  ℕ, ◌≡◌, refl, Bool, true, false, not, ◌&&◌, ◌||◌, List, [], ◌∷◌, map, All, length, ltb,
  if◌then◌else◌, arith,
}
use audioctl.Base.Bytes.{Bytes}
use audioctl.Base.Status.{is_no_err}
use audioctl.Cli.Options.{
  is_input, is_output, is_input_output, Device, ProgramOptions, is_device_matched,
  count_matched_devices, listed_devices,
}
use audioctl.Devices.{
  Hardware, input_scope, output_scope, get_channel_count_for_scope, check_device_running_status,
}
use audioctl.Devices.Info.{Details, DeviceInfo}
use audioctl.Devices.Info.Consistent.{type_of, IsConsistent}

-- The fields that the options look at.
abbrev pub to_device : DeviceInfo → Device
to_device i = record { device_id = i.device_id; device_type = i.kind; is_running = i.is_running }

abbrev pub implies : Bool → Bool → Bool
implies true b = b
implies false b = true

-- By the channels, without the type: `-a` for devices in use, `-i` for those with inputs and no
-- outputs, `-o` for those with outputs.
abbrev pub is_wanted : ProgramOptions → Bool → ℕ → ℕ → Bool
is_wanted opts in_use inputs outputs =
    implies opts.show_only_active in_use
    && (implies opts.show_only_input (ltb 0 inputs && not (ltb 0 outputs))
        && implies opts.show_only_output (ltb 0 outputs))

abbrev pub wanted_info : ProgramOptions → DeviceInfo → Bool
wanted_info opts i = is_wanted opts i.is_running i.input_channel_count i.output_channel_count

-- By what the system answers for the id. A device without a name has no channels and is not in use.
abbrev pub wanted_id : Hardware → Details → ProgramOptions → ℕ → Bool
wanted_id hw dt opts d =
    let inputs = get_channel_count_for_scope hw d input_scope in
    let outputs = get_channel_count_for_scope hw d output_scope in
    let named = is_no_err (dt.name_of d).0 in
    is_wanted opts (named && check_device_running_status hw d (type_of inputs outputs))
      (if named then inputs else 0) (if named then outputs else 0)

unfoldable pub shown : ProgramOptions → List DeviceInfo → List DeviceInfo
shown opts [] = []
shown opts (i ∷ is) = if wanted_info opts i then i ∷ shown opts is else shown opts is

unfoldable pub wanted_ids : Hardware → Details → ProgramOptions → List ℕ → List ℕ
wanted_ids hw dt opts [] = []
wanted_ids hw dt opts (d ∷ ds) =
    if wanted_id hw dt opts d then d ∷ wanted_ids hw dt opts ds else wanted_ids hw dt opts ds

by_type :
    (inputs outputs : ℕ)
    → (is_input (type_of inputs outputs) ≡ (ltb 0 inputs && not (ltb 0 outputs)))
      × ((is_output (type_of inputs outputs) || is_input_output (type_of inputs outputs))
          ≡ ltb 0 outputs)
by_type inputs outputs = ground arith

matched :
    (opts : ProgramOptions) (i : DeviceInfo)
    → IsConsistent i
    → is_device_matched (to_device i) opts ≡ wanted_info opts i
unfolding is_device_matched
matched opts i v =
    let (inputs, outputs) = by_type i.input_channel_count i.output_channel_count in
    rw v.typed (ground (arith, inputs, outputs))

listed :
    (opts : ProgramOptions) (is : List DeviceInfo)
    → All IsConsistent is
    → (listed_devices (map to_device is) opts ≡ map to_device (shown opts is))
      × (count_matched_devices (map to_device is) opts ≡ length (shown opts is))
unfolding listed_devices count_matched_devices shown
listed opts [] v = (refl, refl)
listed opts (i ∷ is) v =
    let (same, counted) = listed opts is v.1 in ground (arith, matched opts i v.0, same, counted)
