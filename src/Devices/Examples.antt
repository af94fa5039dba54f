-- ===== src/Devices/Examples.antt =====
-- The theorem of the devices on a machine with a speaker and the virtual device.
use audioctl.Base.{
  inr, ℕ, ◌≡◌, refl, true, false, Option, none, some, [], ◌∷◌, ◌==◌, if◌then◌else◌, arith,
}
use audioctl.Base.Float.{f_one}
use audioctl.Base.Bytes.{Bytes, codes}
use audioctl.Manager.{virtual_uid}
use audioctl.Manager.Binding.{
  IsOneLine, get_bound_physical_device_uid, strip_newline, save_bound_physical_device,
}
use audioctl.Base.Line.{line_of, c_string}
use audioctl.Cli.{same_string}
use audioctl.Cli.Options.{output_type, ProgramOptions, no_options}
use audioctl.Devices.Info.{Details, built_in}
use audioctl.Devices.{Hardware, has_uid, is_virtual, own_volume_info, get_volume_info}
use audioctl.Devices.Find.{listed}
use audioctl.Devices.Volume.{volume_follows_binding}
use audioctl.Devices.Change.{VolumeCalls, set_device_volume, set_device_volume_silent}
use audioctl.Base.Status.{no_err, bad_object_error}

-- Device 5 is the speaker "Spk", and device 9 the virtual device.
abbrev uid_of : ℕ → Option Bytes
uid_of d = if d == 5 then some (codes "Spk") else if d == 9 then some virtual_uid else none

abbrev hardware : Hardware
hardware = record {
  devices = some (5 ∷ 9 ∷ []);
  uid_of = uid_of;
  is_settable = λ d scope element. true;
  volume_of = λ d scope element. some f_one;
  decibels_of = λ d scope. none;
  channels_of = λ d scope. 2 ∷ [];
  default_of = λ scope. some 9;
  is_alive = λ d. true;
  runs_in = λ d scope. false;
  processing = λ d scope. false;
  bound_uid = some (codes "Spk");
}

only_speaker : (e : ℕ) → has_uid hardware (codes "Spk") e ≡ true → e ≡ 5
unfolding same_string
only_speaker e h = ground (arith, h)

one_line : IsOneLine (codes "Spk")
unfolding IsOneLine
one_line = (refl, refl, (refl, refl, (refl, refl, tt)))

volume_follows_binding_example :
    get_volume_info 2 (λ x. x) hardware 9 output_type
    ≡ some (own_volume_info (λ x. x) hardware 5 output_type)
unfolding is_virtual same_string listed get_bound_physical_device_uid strip_newline line_of c_string
    save_bound_physical_device
volume_follows_binding_example =
    volume_follows_binding (λ x. x) hardware 9 5 output_type 0 83 (112 ∷ 107 ∷ []) none (5 ∷ 9 ∷ [])
      refl one_line (omega arith) refl refl refl refl only_speaker refl refl

-- A device whose volume is known in decibels only.
abbrev fixed_volume : VolumeCalls
fixed_volume = record {
  info = no_err;
  has_volume_control = true;
  mute_settable = (no_err, true);
  clear_mute = no_err;
  channel_count = 2;
  settable = λ element. (no_err, false);
  set_element = λ element. no_err;
}

set_device_volume_silent_example :
    let (status, cleared, done) = set_device_volume fixed_volume in (status ≡ no_err) × (done ≡ [])
set_device_volume_silent_example =
    set_device_volume_silent fixed_volume refl refl (λ element small. inr refl)

abbrev details : Details
details = record {
  name_of = λ d. if d == 9 then (bad_object_error, []) else (no_err, codes "Speaker");
  sample_rate_of = λ d. some 48000;
  format_of = λ d. none;
  mute_of = λ d. some 0;
  transport_of = λ d. some built_in;
}

-- `audioctl list -o`
abbrev outputs : ProgramOptions
outputs = record no_options { show_only_output = true }
