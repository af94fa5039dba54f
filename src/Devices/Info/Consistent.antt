-- ===== src/Devices/Info/Consistent.antt =====
-- The fields of a device's information fit together, and the list has all devices.
use audioctl.Base.{
  ap, ℕ, suc, ◌≡◌, refl, ◌∙◌, Bool, true, false, not, ◌&&◌, ◌||◌, Option, none, some, List, [], ◌∷◌,
  map, All, ltb, add32, if◌then◌else◌, arith, Bool-cases, inl, inr,
}
use audioctl.Base.Float.{Float32}
use audioctl.Base.Bytes.{Bytes}
use audioctl.Base.Status.{OsStatus, no_err, is_no_err}
use audioctl.Cli.Options.{
  DeviceType, unknown_type, input_type, output_type, input_output_type, is_output, is_input_output,
}
use audioctl.Devices.{
  Hardware, bound_device, is_virtual, device_type, input_scope, output_scope,
  get_channel_count_for_scope, check_device_running_status,
}
use audioctl.Devices.Volume.{volume_behind, get_volume_info_lem}
use audioctl.Devices.Info.{
  Transport, Details, DeviceInfo, zero_info, is_continuity, measured, with_running,
  get_basic_audio_properties, get_device_mute_state, get_device_transport_type, get_device_status,
  with_format, with_transport, get_device_info, get_infos, get_device_list, or_zero,
}

-- By the counts of channels.
abbrev pub type_of : ℕ → ℕ → DeviceType
type_of inputs outputs =
    if ltb 0 inputs && ltb 0 outputs
    then input_output_type
    else if ltb 0 inputs
    then input_type
    else if ltb 0 outputs
    then output_type
    else unknown_type

abbrev pub has_output : DeviceType → Bool
has_output kind = is_output kind || is_input_output kind

-- The type is that of the channels, only a device with an output can be muted, and a Continuity
-- Camera has no volume control.
pub record IsConsistent (i : DeviceInfo) : Type 0 where
  pub total : i.channel_count ≡ add32 i.input_channel_count i.output_channel_count
  pub typed : i.kind ≡ type_of i.input_channel_count i.output_channel_count
  pub audible : has_output i.kind ≡ false → i.is_muted ≡ false
  pub camera : is_continuity i.transport_type ≡ true → i.has_volume_control ≡ false

zero_info-IsConsistent : (device : ℕ) → IsConsistent (zero_info device)
zero_info-IsConsistent device = record {
  total = refl;
  typed = refl;
  audible = λ h. refl;
  camera = λ h. refl;
}

-- Before the status: not muted, and with the transport of `memset`.
pub record IsFresh (i : DeviceInfo) : Type 0 where
  pub total : i.channel_count ≡ add32 i.input_channel_count i.output_channel_count
  pub typed : i.kind ≡ type_of i.input_channel_count i.output_channel_count
  pub unmuted : i.is_muted ≡ false
  pub no_camera : is_continuity i.transport_type ≡ false

muted-IsConsistent :
    (dt : Details) (device : ℕ) (i : DeviceInfo)
    → IsFresh i
    → IsConsistent (get_device_mute_state dt device i)
unfolding get_device_mute_state
muted-IsConsistent dt device i v =
    elim (Bool-cases (not (is_output i.kind) && not (is_input_output i.kind))) [
      | inl silent ↦ record {
        total = ground (arith, silent, v.total);
        typed = ground (arith, silent, v.typed);
        audible = λ h. ground (arith, silent, v.unmuted);
        camera = λ h. ground (arith, silent, v.no_camera, h);
      }
      | inr audible ↦ record {
        total = ground (arith, audible, v.total);
        typed = ground (arith, audible, v.typed);
        audible = λ h. ground (arith, audible, h);
        camera = λ h. ground (arith, audible, v.no_camera, h);
      }
    ]

with_transport-IsConsistent :
    (t : Option Transport) (i : DeviceInfo) → IsConsistent i → IsConsistent (with_transport t i)
with_transport-IsConsistent none i v = v
with_transport-IsConsistent (some t) i v = record {
  total = v.total;
  typed = v.typed;
  audible = v.audible;
  camera = λ h. rw h refl;
}

with_format-IsFresh : (f : Option (ℕ × ℕ)) (i : DeviceInfo) → IsFresh i → IsFresh (with_format f i)
with_format-IsFresh none i v = v
with_format-IsFresh (some f) i v = record {
  total = v.total;
  typed = v.typed;
  unmuted = v.unmuted;
  no_camera = v.no_camera;
}

transport_id :
    (t : Option Transport) (i : DeviceInfo) → (with_transport t i).device_id ≡ i.device_id
transport_id none i = refl
transport_id (some t) i = refl

format_id : (f : Option (ℕ × ℕ)) (i : DeviceInfo) → (with_format f i).device_id ≡ i.device_id
format_id none i = refl
format_id (some f) i = refl

muted_id :
    (dt : Details) (device : ℕ) (i : DeviceInfo)
    → (get_device_mute_state dt device i).device_id ≡ i.device_id
unfolding get_device_mute_state
muted_id dt device i = ground arith

module _ (hw : Hardware) (dt : Details) where
  full_id :
      (device : ℕ) (i : DeviceInfo)
      → (with_running hw device
          (get_device_status dt device (get_basic_audio_properties dt device i))).device_id
        ≡ i.device_id
  unfolding with_running get_device_status get_device_transport_type get_basic_audio_properties
  full_id device i =
      transport_id (dt.transport_of device) _
      ∙ muted_id dt device _
      ∙ format_id (dt.format_of device) _

  full-IsConsistent :
      (device : ℕ) (name : Bytes) (volume : Float32) (control : Bool)
      → IsConsistent (
          with_running hw device (
            get_device_status dt device
              (get_basic_audio_properties dt device (measured hw device name volume control))))
  unfolding with_running get_device_status get_device_transport_type get_basic_audio_properties
      device_type
  full-IsConsistent device name volume control =
      let basic =
        with_format-IsFresh (dt.format_of device)
          (record (measured hw device name volume control) {
            sample_rate = or_zero (dt.sample_rate_of device);
          })
          (record { total = refl; typed = refl; unmuted = refl; no_camera = refl }) in
      let v =
        with_transport-IsConsistent (dt.transport_of device) _
          (muted-IsConsistent dt device _ basic) in
      record { total = v.total; typed = v.typed; audible = v.audible; camera = v.camera }

-- What the information of a device tells of it: its channels and whether it is in use, as the
-- system answers, if its name can be had, and otherwise no channels and no use.
pub record IsTold (hw : Hardware) (dt : Details) (i : DeviceInfo) : Type 0 where
  pub inputs : i.input_channel_count ≡ (
      if is_no_err (dt.name_of i.device_id).0
      then get_channel_count_for_scope hw i.device_id input_scope
      else 0)
  pub outputs : i.output_channel_count ≡ (
      if is_no_err (dt.name_of i.device_id).0
      then get_channel_count_for_scope hw i.device_id output_scope
      else 0)
  pub in_use : i.is_running ≡ (
      is_no_err (dt.name_of i.device_id).0
      && check_device_running_status hw i.device_id (
          type_of
            (get_channel_count_for_scope hw i.device_id input_scope)
            (get_channel_count_for_scope hw i.device_id output_scope)))

transport_channels :
    (t : Option Transport) (i : DeviceInfo)
    → ((with_transport t i).input_channel_count ≡ i.input_channel_count)
      × ((with_transport t i).output_channel_count ≡ i.output_channel_count)
      × ((with_transport t i).kind ≡ i.kind)
transport_channels none i = (refl, refl, refl)
transport_channels (some t) i = (refl, refl, refl)

format_channels :
    (f : Option (ℕ × ℕ)) (i : DeviceInfo)
    → ((with_format f i).input_channel_count ≡ i.input_channel_count)
      × ((with_format f i).output_channel_count ≡ i.output_channel_count)
      × ((with_format f i).kind ≡ i.kind)
format_channels none i = (refl, refl, refl)
format_channels (some f) i = (refl, refl, refl)

muted_channels :
    (dt : Details) (device : ℕ) (i : DeviceInfo)
    → ((get_device_mute_state dt device i).input_channel_count ≡ i.input_channel_count)
      × ((get_device_mute_state dt device i).output_channel_count ≡ i.output_channel_count)
      × ((get_device_mute_state dt device i).kind ≡ i.kind)
unfolding get_device_mute_state
muted_channels dt device i = ground arith

-- The fields behind the status, from those in front of it.
told_full :
    (hw : Hardware) (dt : Details) (device : ℕ) (i : DeviceInfo)
    → let full =
        with_running hw device
          (get_device_status dt device (get_basic_audio_properties dt device i)) in
      (full.input_channel_count ≡ i.input_channel_count)
      × (full.output_channel_count ≡ i.output_channel_count)
      × (full.is_running ≡ check_device_running_status hw device i.kind)
unfolding with_running get_device_status get_device_transport_type get_basic_audio_properties
told_full hw dt device i =
    let (a, b, c) = transport_channels (dt.transport_of device) _ in
    let (a', b', c') = muted_channels dt device _ in
    let (a'', b'', c'') = format_channels (dt.format_of device) _ in
    (a ∙ a' ∙ a'', b ∙ b' ∙ b'', ap (check_device_running_status hw device) (c ∙ c' ∙ c''))

told :
    (hw : Hardware) (dt : Details) (device : ℕ) (volume : Float32) (control : Bool)
    → not (is_no_err (dt.name_of device).0) ≡ false
    → let full = with_running hw device (
        get_device_status dt device (
          get_basic_audio_properties dt device
            (measured hw device (dt.name_of device).1 volume control))) in
      (full.device_id ≡ device) → IsTold hw dt full
unfolding device_type
told hw dt device volume control named same =
    let (inputs, outputs, runs) =
      told_full hw dt device (measured hw device (dt.name_of device).1 volume control) in
    let fine : is_no_err (dt.name_of device).0 ≡ true = ground (arith, named) in
    record {
      inputs = inputs ∙ rw (same, fine) refl;
      outputs = outputs ∙ rw (same, fine) refl;
      in_use = runs ∙ rw (same, fine) refl;
    }

module _ (scaled : Float32 → Float32) (hw : Hardware) (dt : Details) (fuel : ℕ) where
  info_of :
      (device : ℕ)
      → is_virtual hw (bound_device hw) ≡ false
      → (status : OsStatus) × (i : DeviceInfo) × (get_device_info scaled hw dt
            (suc (suc fuel))
            device
          ≡ some (status, i))
        × (i.device_id ≡ device)
        × IsConsistent i
        × IsTold hw dt i
  unfolding get_device_info
  info_of device physical = elim (Bool-cases (not (is_no_err (dt.name_of device).0))) [
    | inl failed ↦ (
      (dt.name_of device).0,
      zero_info device,
      rw failed refl,
      refl,
      zero_info-IsConsistent device,
      record {
        inputs = ground (arith, failed);
        outputs = ground (arith, failed);
        in_use = ground (arith, failed);
      },
    )
    | inr named ↦
        let (volume, control) = volume_behind scaled hw device (device_type hw device) in
        (
          no_err,
          with_running hw device (
              get_device_status dt device (
                get_basic_audio_properties dt device
                  (measured hw device (dt.name_of device).1 volume control))),
          rw (named, get_volume_info_lem scaled hw device (device_type hw device) fuel physical)
              refl,
          full_id hw dt device _,
          full-IsConsistent hw dt device (dt.name_of device).1 volume control,
          told hw dt device volume control named (full_id hw dt device _),
        )
  ]

  -- One entry for each id, in the order of the ids.
  infos_of :
      (ids : List ℕ)
      → is_virtual hw (bound_device hw) ≡ false
      → (is : List DeviceInfo) × (get_infos scaled hw dt (suc (suc fuel)) ids ≡ some is)
        × (map (λ (i : DeviceInfo). i.device_id) is ≡ ids)
        × All IsConsistent is
        × All (IsTold hw dt) is
  unfolding get_infos
  infos_of [] physical = ([], refl, refl, tt, tt)
  infos_of (d ∷ ds) physical =
      let (status, i, got, same, fine, true_to) = info_of d physical in
      let (is, got', same', fine', true_to') = infos_of ds physical in
      (i ∷ is, ground (arith, got, got'), cc, (fine, fine'), (true_to, true_to'))

  -- If the binding does not name the virtual device itself, the list of devices can be had at any
  -- depth of two calls of `getVolumeInfo` or more, once both calls for the ids succeed: it has one
  -- entry for each id, in their order, also for a device whose name cannot be had, the fields of each
  -- entry fit together, and its channels and its use are those that the system answers.
  pub get_device_list_lem :
      (ids : List ℕ)
      → is_virtual hw (bound_device hw) ≡ false
      → (is : List DeviceInfo) × (get_device_list scaled hw dt (suc (suc fuel)) no_err no_err ids
          ≡ some (no_err, is))
        × (map (λ (i : DeviceInfo). i.device_id) is ≡ ids)
        × All IsConsistent is
        × All (IsTold hw dt) is
  unfolding get_device_list
  get_device_list_lem ids physical =
      let (is, got, same, fine, true_to) = infos_of ids physical in
      (is, rw got refl, same, fine, true_to)
