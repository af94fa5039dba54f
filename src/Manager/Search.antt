-- ===== src/Manager/Search.antt =====
-- The search for the virtual device, which is tried five times.
use audioctl.Base.{ℕ, zero, suc, ◌<◌, ◌≡◌, false, ◌==◌, Bool-cases, inl, inr, arith}
use audioctl.Manager.{CoreAudio, search_for_virtual_device, find_attempts, find_virtual_device}

module _ {S : Type 0} (audio : CoreAudio S) where
  -- After that many sleeps of half a second.
  unfoldable pub slept : ℕ → S → S
  slept zero s = s
  slept (suc n) s = slept n (audio.sleep_ms 500 s)

  attempts_find :
      (n k : ℕ) (s : S)
      → k < n
      → search_for_virtual_device audio (slept k s) == 0 ≡ false
      → let (device, s') = find_attempts audio n s in
        (device == 0 ≡ false) × (search_for_virtual_device audio s' ≡ device)
  unfolding find_attempts slept
  attempts_find zero k s h found = absurd (omega arith)
  attempts_find (suc n) zero s h found = ground arith
  attempts_find (suc n) (suc k) s h found =
      elim (Bool-cases (search_for_virtual_device audio s == 0)) [
        | inl nothing ↦ ground (arith, attempts_find n k (audio.sleep_ms 500 s) (omega arith) found)
        | inr here ↦ ground arith
      ]

  -- A virtual device that the search would show at one of the five attempts, half a second apart,
  -- is found, and the device found is there when the search ends.
  pub find_virtual_device_finds :
      (k : ℕ) (s : S)
      → k < 5
      → search_for_virtual_device audio (slept k s) == 0 ≡ false
      → let (device, s') = find_virtual_device audio s in
        (device == 0 ≡ false) × (search_for_virtual_device audio s' ≡ device)
  unfolding find_virtual_device
  find_virtual_device_finds k s h found = attempts_find 5 k s h found
