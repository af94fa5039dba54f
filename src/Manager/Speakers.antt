-- ===== src/Manager/Speakers.antt =====
-- A machine with a speaker and the virtual device, for the runs of the code.
use audioctl.Base.{ℕ, refl, true, none, [], ◌∷◌, ◌==◌, if◌then◌else◌, arith}
use audioctl.Base.Bytes.{Bytes}
use audioctl.Base.Status.{OsStatus, no_err, bad_object_error, is_no_err}
use audioctl.Manager.{
  CoreAudio, Machine, virtual_uid, begins_with, contains, is_virtual_device, first_virtual,
  search_for_virtual_device,
}
use audioctl.Manager.Switch.{IsStable}

-- The default output, and the time in ms until the virtual device comes up.
abbrev pub Speakers : Type 0
Speakers = ℕ × ℕ

-- "Spk"
abbrev pub speaker : Bytes
speaker = 83 ∷ 112 ∷ 107 ∷ []

-- Device 5 is the speaker, and device 9 the virtual device.
abbrev pub uid_of : Speakers → ℕ → OsStatus × Bytes
uid_of s d =
    if d == 5
    then (no_err, speaker)
    else if d == 9
    then (no_err, virtual_uid)
    else (bad_object_error, [])

abbrev pub audio : CoreAudio Speakers
audio = record {
  get_output = λ s. s.0;
  get_input = λ s. 5;
  set_output =
      λ s d. if is_no_err (uid_of s d).0 then (no_err, (d, s.1)) else (bad_object_error, s);
  set_input = λ s d. (bad_object_error, s);
  translate_uid = λ s u. (no_err, if s.1 == 0 then 9 else 0);
  get_all = λ s. (no_err, if s.1 == 0 then 5 ∷ 9 ∷ [] else 5 ∷ []);
  device_uid = uid_of;
  device_name = uid_of;
  output_size = λ s d. (no_err, 8);
  sleep_ms = λ n s. (s.0, s.1);
}

pub audio-IsStable : IsStable audio
unfolding search_for_virtual_device is_virtual_device first_virtual contains begins_with
audio-IsStable = record {
  accepts = λ s d h. ground (arith, h);
  takes = λ s d h. ground (arith, h);
  waits = λ s n. refl;
  sleep_uid = λ s n d. refl;
  set_uid = λ s d e. refl;
  searches = λ s h. ground arith;
  sleep_translate = λ s n. refl;
  set_translate = λ s d. ground arith;
}

abbrev pub machine : Machine Speakers
machine = record { audio = (5, 0); state_file = none; writable = true }
