-- ===== src/Devices/Change.antt =====
-- Setting the volume of a device and making it the default (src/audio_control.c).
use audioctl.Base.{
  ◌≤◌, ◌+◌, ◌≢◌, ◌⊎◌, inl, ◌∙◌, ℕ, zero, suc, ◌≡◌, refl, ap, Bool, true, false, not, ◌&&◌, List, [],
  ◌∷◌, ◌==◌, if◌then◌else◌, arith,
}
use audioctl.Base.Status.{OsStatus, no_err, other, is_no_err}
use audioctl.Manager.{CoreAudio, unspecified_error}
use audioctl.Cli.Options.{
  DeviceType, input_type, output_type, input_output_type, unknown_type, is_input,
}

-- What CoreAudio answers for the device: whether its information can be had, and whether that says
-- that the volume can be controlled; whether its mute state can be set, and the result of clearing it;
-- its channels; for each element whether its volume can be set, and
-- the result of setting it. Element 0 is the main one.
pub record VolumeCalls : Type 0 where
  pub info : OsStatus
  pub has_volume_control : Bool
  pub mute_settable : OsStatus × Bool
  pub clear_mute : OsStatus
  pub channel_count : ℕ
  pub settable : ℕ → OsStatus × Bool
  pub set_element : ℕ → OsStatus

abbrev pub unsupported_error : OsStatus
unsupported_error = other 0x756e_6f70

abbrev pub may_set : OsStatus × Bool → Bool
may_set (status, can) = is_no_err status && can

-- The loop over the channels with `n` left, and the status so far: the last status, and the channels
-- that were set.
unfoldable pub set_channels : VolumeCalls → ℕ → ℕ → OsStatus → OsStatus × List ℕ
set_channels a zero channel status = (status, [])
set_channels a (suc n) channel status =
    let skipped = set_channels a n (suc channel) (a.settable channel).0 in
    let (last, done) = set_channels a n (suc channel) (a.set_element channel) in
    if not (may_set (a.settable channel))
    then skipped
    else if is_no_err (a.set_element channel)
    then (last, channel ∷ done)
    else (last, done)

abbrev pub any : List ℕ → Bool
any [] = false
any (c ∷ cs) = true

-- From the main element on.
unfoldable pub set_elements : VolumeCalls → OsStatus × List ℕ
set_elements a =
    let main_status = if may_set (a.settable 0) then a.set_element 0 else (a.settable 0).0 in
    let (last, done) = set_channels a a.channel_count 1 main_status in
    if may_set (a.settable 0) && is_no_err (a.set_element 0)
    then (no_err, 0 ∷ [])
    else (if any done then no_err else last, done)

-- The mute state is cleared first.
abbrev pub unmuted : VolumeCalls → Bool
unmuted a = may_set a.mute_settable && is_no_err a.clear_mute

-- The status, whether the mute state was cleared, and the elements whose volume was set.
unfoldable pub set_device_volume : VolumeCalls → OsStatus × Bool × List ℕ
set_device_volume a =
    if not (is_no_err a.info)
    then (a.info, false, [])
    else if not a.has_volume_control
    then (unsupported_error, false, [])
    else (let (status, done) = set_elements a in (status, unmuted a, done))

-- An element whose volume cannot be set: the question fails, or its answer is no.
abbrev pub IsFixed : OsStatus × Bool → Type 0
IsFixed (status, can) = (status ≢ no_err) ⊎ (can ≡ false)

fixed_may : (answer : OsStatus × Bool) → IsFixed answer → may_set answer ≡ false
fixed_may (no_err, can) (inl failed) = absurd (failed refl)
fixed_may (status, can) fixed = ground (arith, fixed)

moved : (n before : ℕ) → suc before + n ≡ before + suc n
moved n before = omega arith

nothing_set :
    (a : VolumeCalls) (n before : ℕ)
    → ((element : ℕ) → element ≤ before + n → IsFixed (a.settable element))
    → set_channels a n (suc before) (a.settable before).0 ≡ ((a.settable (before + n)).0, [])
unfolding set_channels
nothing_set a zero before fixed = ap (λ e. ((a.settable e).0, [])) (omega arith)
nothing_set a (suc n) before fixed =
    rw (fixed_may (a.settable (suc before)) (fixed (suc before) (omega arith))) (
      nothing_set a n (suc before) (λ e h. fixed e (omega (arith, h)))
      ∙ ap (λ e. ((a.settable e).0, [])) (moved n before))

from_zero : (n : ℕ) → 0 + n ≡ n
from_zero n = omega arith

elements_silent :
    (a : VolumeCalls)
    → ((element : ℕ) → element ≤ a.channel_count → IsFixed (a.settable element))
    → set_elements a ≡ ((a.settable a.channel_count).0, [])
unfolding set_elements
elements_silent a fixed =
    rw
      (
        fixed_may (a.settable 0) (fixed 0 (omega arith)),
        nothing_set a a.channel_count 0 (λ e h. fixed e (omega (arith, h))),
      )
      (ap (λ e. ((a.settable e).0, [])) (from_zero a.channel_count))

-- A device that says that its volume can be controlled, but none of whose elements, the main one and
-- its channels, can be set (CoreAudio answers no, or the question fails), gets no volume at all, and
-- the status is that of the question about its last channel, or of the main element without channels:
-- `noErr` whenever that question is answered.
pub set_device_volume_silent :
    (a : VolumeCalls)
    → a.info ≡ no_err
    → a.has_volume_control ≡ true
    → ((element : ℕ) → element ≤ a.channel_count → IsFixed (a.settable element))
    → let (status, cleared, done) = set_device_volume a in
      (status ≡ (a.settable a.channel_count).0) × (done ≡ [])
unfolding set_device_volume
set_device_volume_silent a info control fixed =
    ground (arith, info, control, elements_silent a fixed)

module _ {S : Type 0} (audio : CoreAudio S) where
  -- `none` if the information of the device cannot be had, with its status.
  unfoldable pub set_device_active : OsStatus → DeviceType → ℕ → S → OsStatus × S
  set_device_active info kind device s =
      let (status, s') =
        if is_input kind then audio.set_input s device else audio.set_output s device in
      let current = if is_input kind then audio.get_input s' else audio.get_output s' in
      if not (is_no_err info)
      then (info, s)
      else if not (is_no_err status)
      then (status, s')
      else if current == device
      then (no_err, s')
      else (unspecified_error, s')

  -- With success the device is the default one of its direction.
  pub set_device_active_lem :
      (info : OsStatus) (kind : DeviceType) (device : ℕ) (s : S)
      → (set_device_active info kind device s).0 ≡ no_err
      → let s' = (set_device_active info kind device s).1 in
        (if is_input kind then audio.get_input s' else audio.get_output s') ≡ device
  unfolding set_device_active
  set_device_active_lem info input_type device s h = ground (arith, h, ap is_no_err h)
  set_device_active_lem info output_type device s h = ground (arith, h, ap is_no_err h)
  set_device_active_lem info input_output_type device s h = ground (arith, h, ap is_no_err h)
  set_device_active_lem info unknown_type device s h = ground (arith, h, ap is_no_err h)
