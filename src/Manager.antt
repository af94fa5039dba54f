-- ===== src/Manager.antt =====
-- The manager of the virtual device (src/virtual_device_manager.c): finding it, making it the default
-- output, and going back to the device before it. CoreAudio is a parameter: a state and what its
-- calls do.
pub mod Saved
pub mod Binding
pub mod Search
pub mod Switch
pub mod Speakers
pub mod Status
pub mod Reported
mod Examples
use audioctl.Base.{
  ℕ, zero, suc, ◌-◌, ◌%◌, ◌^◌, Bool, true, false, not, ◌&&◌, ◌||◌, Option, none, some, List, [],
  ◌∷◌, ◌==◌, ltb, leb, if◌then◌else◌,
}
use audioctl.Base.Bytes.{Bytes}
use audioctl.Base.Decimal.{print_int, Scanned, no_number, number, strtol}
use audioctl.Base.Line.{c_string, fgets}
use audioctl.Base.Status.{OsStatus, no_err, minus_one, bad_device_error, other, is_no_err}

-- The calls of CoreAudio. A device is its number, and 0 is `kAudioObjectUnknown`, also where the
-- call for a default device fails. A failed call for a string leaves the zeros of the buffer.
pub record CoreAudio (S : Type 0) : Type 0 where
  pub get_output : S → ℕ
  pub get_input : S → ℕ
  pub set_output : S → ℕ → OsStatus × S
  pub set_input : S → ℕ → OsStatus × S
  pub translate_uid : S → Bytes → OsStatus × ℕ
  pub get_all : S → OsStatus × List ℕ
  pub device_uid : S → ℕ → OsStatus × Bytes
  pub device_name : S → ℕ → OsStatus × Bytes
  pub output_size : S → ℕ → OsStatus × ℕ
  pub sleep_ms : ℕ → S → S

-- "0E1D42AE-F2ED-4A48-9624-C770025E32A4", "Virtual Audio" and "Virtual"
abbrev pub virtual_uid : Bytes
virtual_uid =
    48 ∷ 69 ∷ 49 ∷ 68 ∷ 52 ∷ 50 ∷ 65 ∷ 69 ∷ 45 ∷ 70 ∷ 50 ∷ 69 ∷ 68 ∷ 45 ∷ 52 ∷ 65 ∷ 52 ∷ 56 ∷ 45
    ∷ 57 ∷ 54 ∷ 50 ∷ 52 ∷ 45 ∷ 67 ∷ 55 ∷ 55 ∷ 48 ∷ 48 ∷ 50 ∷ 53 ∷ 69 ∷ 51 ∷ 50 ∷ 65 ∷ 52 ∷ []

abbrev pub virtual_word : Bytes
virtual_word = 86 ∷ 105 ∷ 114 ∷ 116 ∷ 117 ∷ 97 ∷ 108 ∷ []

abbrev pub virtual_audio : Bytes
virtual_audio = 86 ∷ 105 ∷ 114 ∷ 116 ∷ 117 ∷ 97 ∷ 108 ∷ 32 ∷ 65 ∷ 117 ∷ 100 ∷ 105 ∷ 111 ∷ []

-- `strstr (s, pattern) != NULL`
unfoldable pub begins_with : Bytes → Bytes → Bool
begins_with [] s = true
begins_with (p ∷ ps) [] = false
begins_with (p ∷ ps) (c ∷ s) = p == c && begins_with ps s

unfoldable pub contains : Bytes → Bytes → Bool
contains pattern [] = begins_with pattern []
contains pattern (c ∷ s) = begins_with pattern (c ∷ s) || contains pattern s

module _ {S : Type 0} (audio : CoreAudio S) where
  unfoldable pub is_virtual_device : S → ℕ → Bool
  is_virtual_device s device =
      contains virtual_uid (audio.device_uid s device).1
      || contains virtual_audio (audio.device_name s device).1

  -- The loop over the devices.
  unfoldable pub first_virtual : S → List ℕ → ℕ
  first_virtual s [] = 0
  first_virtual s (d ∷ ds) = if is_virtual_device s d then d else first_virtual s ds

  unfoldable pub search_for_virtual_device : S → ℕ
  search_for_virtual_device s =
      let (status, devices) = audio.get_all s in
      if is_no_err status then first_virtual s devices else 0

  -- At most `n` searches, each that fails followed by half a second of sleep.
  unfoldable pub find_attempts : ℕ → S → ℕ × S
  find_attempts zero s = (0, s)
  find_attempts (suc n) s =
      let rest = find_attempts n (audio.sleep_ms 500 s) in
      let device = search_for_virtual_device s in if device == 0 then rest else (device, s)

  unfoldable pub find_virtual_device : S → ℕ × S
  find_virtual_device s = find_attempts 5 s

  unfoldable pub virtual_device_is_installed : S → Bool × S
  virtual_device_is_installed s =
      let (device, s') = find_virtual_device s in (not (device == 0), s')

  unfoldable pub virtual_device_is_active_output : S → Bool × S
  virtual_device_is_active_output s =
      let (device, s') = find_virtual_device s in
      if device == 0 then (false, s') else (audio.get_output s' == device, s')

  unfoldable pub virtual_device_is_active_input : S → Bool × S
  virtual_device_is_active_input s =
      let (device, s') = find_virtual_device s in
      if device == 0 then (false, s') else (device == audio.get_input s', s')

  unfoldable pub virtual_device_is_active : S → Bool × S
  virtual_device_is_active s =
      let (output, s') = virtual_device_is_active_output s in
      let rest = virtual_device_is_active_input s' in if output then (true, s') else rest

  unfoldable pub virtual_device_set_as_default_output : S → OsStatus × S
  virtual_device_set_as_default_output s =
      let (device, s') = find_virtual_device s in
      if device == 0 then (minus_one, s') else audio.set_output s' device

  unfoldable pub virtual_device_set_as_default_input : S → OsStatus × S
  virtual_device_set_as_default_input s =
      let (device, s') = find_virtual_device s in
      if device == 0 then (minus_one, s') else audio.set_input s' device

  unfoldable pub virtual_device_activate : S → OsStatus × S
  virtual_device_activate s =
      let (status1, s1) = virtual_device_set_as_default_output s in
      let (status2, s2) = virtual_device_set_as_default_input s1 in
      if is_no_err status1 && is_no_err status2
      then (no_err, s2)
      else (if is_no_err status1 then status2 else status1, s2)

-- CoreAudio, and the file last_device.txt: what it holds (`none` if it cannot be opened for reading)
-- and whether it can be written.
pub record Machine (S : Type 0) : Type 0 where
  pub audio : S
  pub state_file : Option Bytes
  pub writable : Bool

unfoldable pub save_current_device : {S : Type 0} → Machine S → ℕ → OsStatus × Machine S
save_current_device m device =
    if m.writable
    then (no_err, record m { state_file = some (print_int device []) })
    else (minus_one, m)

-- `(unsigned int) strtoul (buf, NULL, 10)`
abbrev pub as_u32 : Scanned → ℕ
as_u32 no_number = 0
as_u32 (number negative n rest) =
    if ltb (2 ^ 64 - 1) n
    then 2 ^ 32 - 1
    else if negative
    then (2 ^ 64 - n) % 2 ^ 32
    else n % 2 ^ 32

unfoldable pub restore_previous_device : Option Bytes → ℕ
restore_previous_device none = 0
restore_previous_device (some bytes) = elim (fgets 32 bytes) [
  | none ↦ 0
  | some buffer ↦ as_u32 (strtol (c_string buffer))
]

-- The two `kAudioHardware` codes without a name in the model of the statuses.
abbrev pub unspecified_error : OsStatus
unspecified_error = other 0x7768_6174

module _ {S : Type 0} (audio : CoreAudio S) where
  -- The loop with `n` tries left: whether it was left by its `break`.
  unfoldable pub set_attempts : ℕ → ℕ → S → Bool × S
  set_attempts zero device s = (false, s)
  set_attempts (suc n) device s =
      let (status, s1) = audio.set_output s device in
      let s2 = if is_no_err status then audio.sleep_ms 200 s1 else s1 in
      let rest = set_attempts n device (if n == 0 then s2 else audio.sleep_ms 300 s2) in
      if is_no_err status && audio.get_output s2 == device then (true, s2) else rest

  unfoldable pub virtual_device_activate_with_router : Machine S → OsStatus × Machine S
  virtual_device_activate_with_router m =
      let previous = audio.get_output m.audio in
      let m' = if previous == 0 then m else (save_current_device m previous).1 in
      let (found, device) = audio.translate_uid m.audio virtual_uid in
      let (done, s) = set_attempts 3 device m.audio in
      if not (is_no_err found) || device == 0
      then (bad_device_error, m')
      else if not done
      then (unspecified_error, record m' { audio = s })
      else if audio.get_output s == device
      then (no_err, record m' { audio = s })
      else (unspecified_error, record m' { audio = s })

  abbrev pub is_virtual_uid : Bytes → Bool
  is_virtual_uid uid = contains virtual_uid uid || contains virtual_word uid

  -- The device that was saved is valid and not virtual.
  abbrev pub is_restorable : S → ℕ → Bool
  is_restorable s device =
      let (status, uid) = audio.device_uid s device in
      not (device == 0) && (is_no_err status && not (is_virtual_uid uid))

  abbrev pub has_output : S → ℕ → Bool
  has_output s device =
      let (status, size) = audio.output_size s device in is_no_err status && not (size == 0)

  unfoldable pub first_physical : S → List ℕ → ℕ
  first_physical s [] = 0
  first_physical s (d ∷ ds) =
      if is_virtual_uid (audio.device_uid s d).1
      then first_physical s ds
      else if has_output s d
      then d
      else first_physical s ds

  -- The first physical device with an output.
  unfoldable pub fall_back : S → OsStatus × S
  fall_back s =
      let (status, devices) = audio.get_all s in
      let device = first_physical s devices in
      if not (is_no_err status)
      then (status, s)
      else if device == 0
      then (minus_one, s)
      else audio.set_output s device

  unfoldable pub virtual_device_deactivate : Machine S → OsStatus × Machine S
  virtual_device_deactivate m =
      let (active, s) = virtual_device_is_active audio m.audio in
      let previous = restore_previous_device m.state_file in
      let (status, s1) = audio.set_output s previous in
      let tried = is_restorable s previous in
      let (status', s2) = fall_back (if tried then s1 else s) in
      if not active
      then (no_err, record m { audio = s })
      else if tried && is_no_err status
      then (no_err, record m { audio = s1 })
      else (status', record m { audio = s2 })
