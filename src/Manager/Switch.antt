-- ===== src/Manager/Switch.antt =====
-- To the virtual device and back to the device before it.
use audioctl.Base.{ℕ, ◌^◌, ◌<◌, ◌≡◌, refl, ap, ◌∙◌, ◌⊎◌, true, false, ◌==◌, if◌then◌else◌, arith}
use audioctl.Base.Bytes.{Bytes}
use audioctl.Base.Status.{OsStatus, no_err, bad_device_error}
use audioctl.Manager.{
  CoreAudio, Machine, virtual_uid, search_for_virtual_device, find_attempts, find_virtual_device,
  virtual_device_is_active_output, virtual_device_is_active, save_current_device,
  restore_previous_device, set_attempts, virtual_device_activate_with_router,
  virtual_device_deactivate, is_virtual_uid, unspecified_error,
}
use audioctl.Manager.Saved.{restore-save_device}

module _ {S : Type 0} (audio : CoreAudio S) where
  -- A machine on which every call for the default output works at once: a device that has a UID can be
  -- made the default output and is it then, time passes without a change, the devices stay as they
  -- are, and the search shows the device that the UID names. CoreAudio does not promise this.
  pub record IsStable : Type 0 where
    pub accepts :
        (s : S) (d : ℕ) → (audio.device_uid s d).0 ≡ no_err → (audio.set_output s d).0 ≡ no_err
    pub takes :
        (s : S) (d : ℕ)
        → (audio.set_output s d).0 ≡ no_err
        → audio.get_output (audio.set_output s d).1 ≡ d
    pub waits : (s : S) (n : ℕ) → audio.get_output (audio.sleep_ms n s) ≡ audio.get_output s
    pub sleep_uid :
        (s : S) (n d : ℕ) → audio.device_uid (audio.sleep_ms n s) d ≡ audio.device_uid s d
    pub set_uid :
        (s : S) (d e : ℕ) → audio.device_uid (audio.set_output s d).1 e ≡ audio.device_uid s e
    pub searches :
        (s : S)
        → (audio.translate_uid s virtual_uid).0 ≡ no_err
        → search_for_virtual_device audio s ≡ (audio.translate_uid s virtual_uid).1
    pub sleep_translate :
        (s : S) (n : ℕ)
        → audio.translate_uid (audio.sleep_ms n s) virtual_uid ≡ audio.translate_uid s virtual_uid
    pub set_translate :
        (s : S) (d : ℕ)
        → audio.translate_uid (audio.set_output s d).1 virtual_uid
          ≡ audio.translate_uid s virtual_uid

  kept_audio :
      (m : Machine S)
      → (if audio.get_output m.audio == 0
          then m
          else (save_current_device m (audio.get_output m.audio)).1).audio
        ≡ m.audio
  unfolding save_current_device
  kept_audio m = ground arith

  -- With success the virtual device is the default output. Otherwise no device of its UID was found,
  -- and nothing but the file has changed, or three tries were not enough.
  pub activate_with_router_lem :
      (m : Machine S)
      → let (status, m') = virtual_device_activate_with_router audio m in
        let device = (audio.translate_uid m.audio virtual_uid).1 in
        ((status ≡ no_err) × (audio.get_output m'.audio ≡ device) × (device == 0 ≡ false))
        ⊎ (((status ≡ bad_device_error) × (m'.audio ≡ m.audio)) ⊎ (status ≡ unspecified_error))
  unfolding virtual_device_activate_with_router
  activate_with_router_lem m = ground (arith, kept_audio m)

  -- The state with the device as the default output after one try.
  abbrev pub switched : S → ℕ → S
  switched s device = audio.sleep_ms 200 (audio.set_output s device).1

  first_try :
      IsStable
      → (s : S) (device : ℕ) → (audio.device_uid s device).0 ≡ no_err
      → set_attempts audio 3 device s ≡ (true, switched s device)
  unfolding set_attempts
  first_try stable s device known = rw (stable.accepts s device known) (
      ground (
        arith,
        stable.waits (audio.set_output s device).1 200,
        stable.takes s device (stable.accepts s device known),
      ))

  -- The machine that goes back later.
  abbrev pub away : Machine S → ℕ → Machine S
  away m device = record (save_current_device m (audio.get_output m.audio)).1 {
    audio = switched m.audio device;
  }

  pub output_away :
      IsStable
      → (s : S) (device : ℕ) → (audio.device_uid s device).0 ≡ no_err
      → audio.get_output (switched s device) ≡ device
  output_away stable s device known =
      stable.waits (audio.set_output s device).1 200
      ∙ stable.takes s device (stable.accepts s device known)

  pub activated :
      IsStable
      → (m : Machine S) (device : ℕ) → audio.get_output m.audio == 0 ≡ false
      → audio.translate_uid m.audio virtual_uid ≡ (no_err, device)
      → device == 0 ≡ false
      → (audio.device_uid m.audio device).0 ≡ no_err
      → virtual_device_activate_with_router audio m ≡ (no_err, away m device)
  unfolding virtual_device_activate_with_router
  activated stable m device some_device found device_there known =
      rw (some_device, found, device_there, first_try stable m.audio device known)
        (ground (arith, output_away stable m.audio device known))

  still_active :
      IsStable
      → (s : S) (device : ℕ) → audio.translate_uid s virtual_uid ≡ (no_err, device)
      → device == 0 ≡ false
      → audio.get_output s ≡ device
      → virtual_device_is_active audio s ≡ (true, s)
  unfolding virtual_device_is_active virtual_device_is_active_output find_virtual_device
      find_attempts
  still_active stable s device found there output = ground (
    arith,
    stable.searches s (ap (λ (r : OsStatus × ℕ). r.0) found),
    ap (λ (r : OsStatus × ℕ). r.1) found,
    output,
  )

  deactivated :
      IsStable
      → (m : Machine S) (previous : ℕ) → virtual_device_is_active audio m.audio ≡ (true, m.audio)
      → restore_previous_device m.state_file ≡ previous
      → previous == 0 ≡ false
      → (audio.device_uid m.audio previous).0 ≡ no_err
      → is_virtual_uid audio (audio.device_uid m.audio previous).1 ≡ false
      → virtual_device_deactivate audio m
        ≡ (no_err, record m { audio = (audio.set_output m.audio previous).1 })
  unfolding virtual_device_deactivate
  deactivated stable m previous active kept there known physical =
      ground (arith, active, kept, stable.accepts m.audio previous known)

  -- There and back, on such a machine: if the default output is a physical
  -- device with a UID, the file can be written, and the UID of the virtual device names one, then
  -- `virtual_device_activate_with_router` makes that one the default output, and
  -- `virtual_device_deactivate` makes the device before it the default output again, both without
  -- an error.
  pub activate_deactivate :
      IsStable
      → (m : Machine S) (device : ℕ) → m.writable ≡ true
      → audio.get_output m.audio == 0 ≡ false
      → audio.get_output m.audio < 2 ^ 32
      → (audio.device_uid m.audio (audio.get_output m.audio)).0 ≡ no_err
      → is_virtual_uid audio (audio.device_uid m.audio (audio.get_output m.audio)).1 ≡ false
      → audio.translate_uid m.audio virtual_uid ≡ (no_err, device)
      → device == 0 ≡ false
      → (audio.device_uid m.audio device).0 ≡ no_err
      → let (status, m') = virtual_device_activate_with_router audio m in
        let (status', m'') = virtual_device_deactivate audio m' in
        (status ≡ no_err)
        × (audio.get_output m'.audio ≡ device)
        × (status' ≡ no_err)
        × (audio.get_output m''.audio ≡ audio.get_output m.audio)
  activate_deactivate stable m device can_write some_device small uid_known physical found there
        known =
      rw (to, back)
        (
          refl,
          output_away stable m.audio device known,
          refl,
          stable.takes s' previous (stable.accepts s' previous previous_known),
        )
    where
      previous : ℕ
      previous = audio.get_output m.audio

      s' : S
      s' = switched m.audio device

      uid_kept : (d : ℕ) → audio.device_uid s' d ≡ audio.device_uid m.audio d
      uid_kept d =
          stable.sleep_uid (audio.set_output m.audio device).1 200 d
          ∙ stable.set_uid m.audio device d

      previous_known : (audio.device_uid s' previous).0 ≡ no_err
      previous_known = ap (λ (r : OsStatus × Bytes). r.0) (uid_kept previous) ∙ uid_known

      to : virtual_device_activate_with_router audio m ≡ (no_err, away m device)
      to = activated stable m device some_device found there known

      back :
          virtual_device_deactivate audio (away m device)
          ≡ (no_err, record (away m device) { audio = (audio.set_output s' previous).1 })
      back =
          deactivated stable (away m device) previous
            (still_active stable s' device
              (stable.sleep_translate (audio.set_output m.audio device).1 200
                ∙ stable.set_translate m.audio device
                ∙ found)
              there (output_away stable m.audio device known))
            (restore-save_device m previous can_write small) some_device previous_known
            (ap (λ (r : OsStatus × Bytes). is_virtual_uid audio r.1) (uid_kept previous) ∙ physical)
