-- ===== src/Driver/Volume.antt =====
-- The volume of one client on the audio thread (src/driver/app_volume_driver.c): it reads the cache
-- of the IPC client and never asks the server.
use audioctl.Base.{
  ℕ, zero, suc, ◌≡◌, Bool, true, false, ◌&&◌, Option, none, some, List, [], ◌∷◌, ◌==◌, mul32,
  if◌then◌else◌, Option-cases, ◌⊎◌, inl, inr, arith,
}
use audioctl.Base.Float.{Float32, f_one, f_0_999, fle}
use audioctl.Ipc.Client.Cache.{is_fresh}
use audioctl.Driver.Clients.{Driver, is_positive, app_volume_driver_get_pid, find_pid}
use audioctl.Driver.Device.{zero_samples}

-- The volume and the mute state. The flag says whether the lock is free.
unfoldable pub app_volume_driver_get_volume : Driver → Bool → ℕ → ℕ → Float32 × Bool
app_volume_driver_get_volume g locked now client_id =
    let pid = app_volume_driver_get_pid g locked client_id in
    if (is_positive pid && g.ipc_initialized) && is_fresh g.ipc_client pid now
    then (g.ipc_client.cached_volume, g.ipc_client.cached_muted)
    else (f_one, false)

-- The product of two floats, which rounds.
module _ (fmul : Float32 → Float32 → Float32) where
  unfoldable pub scale_samples : ℕ → Float32 → List Float32 → List Float32
  scale_samples zero volume xs = xs
  scale_samples (suc n) volume [] = []
  scale_samples (suc n) volume (x ∷ xs) = fmul x volume ∷ scale_samples n volume xs

  -- What is done to a buffer of `n` samples.
  abbrev pub mix : Float32 × Bool → ℕ → List Float32 → List Float32
  mix (volume, muted) n xs =
      if muted
      then zero_samples n xs
      else if fle f_0_999 volume
      then xs
      else scale_samples n volume xs

  -- `none` is a null buffer.
  unfoldable pub app_volume_driver_apply_volume :
      Driver → Bool → ℕ → ℕ → Option (List Float32) → ℕ → ℕ → Option (List Float32)
  app_volume_driver_apply_volume g locked now client_id none frames channels = none
  app_volume_driver_apply_volume g locked now client_id (some xs) frames channels =
      if frames == 0
      then some xs
      else some
          (mix (app_volume_driver_get_volume g locked now client_id) (mul32 frames channels) xs)

  abbrev pub mix_side : Float32 × Bool → ℕ → Option (List Float32) → Option (List Float32)
  mix_side setting n none = none
  mix_side setting n (some xs) = some (mix setting n xs)

  -- The two buffers of separate channels.
  unfoldable pub app_volume_driver_apply_volume_ni :
      Driver
      → Bool
      → ℕ
      → ℕ
      → Option (List Float32)
      → Option (List Float32)
      → ℕ
      → Option (List Float32) × Option (List Float32)
  app_volume_driver_apply_volume_ni g locked now client_id left right frames =
      if frames == 0
      then (left, right)
      else (let setting = app_volume_driver_get_volume g locked now client_id in
          (mix_side setting frames left, mix_side setting frames right))

-- The volume that a client is heard with is the default, full and not muted, unless the lock is
-- free, the client is in the table with a positive process id, the IPC is initialised and the cache
-- is fresh for that process; then it is what the cache holds.
pub get_volume_cases :
    (g : Driver) (locked : Bool) (now client_id : ℕ)
    → (app_volume_driver_get_volume g locked now client_id ≡ (f_one, false))
      ⊎ ((pid : ℕ) × (locked ≡ true)
          × (find_pid g.clients client_id ≡ some pid)
          × (is_positive pid ≡ true)
          × (g.ipc_initialized ≡ true)
          × (is_fresh g.ipc_client pid now ≡ true)
          × (app_volume_driver_get_volume g locked now client_id
              ≡ (g.ipc_client.cached_volume, g.ipc_client.cached_muted)))
unfolding app_volume_driver_get_volume app_volume_driver_get_pid
get_volume_cases g locked now client_id = elim (Option-cases (find_pid g.clients client_id)) [
  | inl missing ↦ ground arith
  | inr (pid, found) ↦ ground arith
]

-- A client that the table does not hold, or whose table is locked, is not attenuated: its samples
-- come out as they went in, whatever the cache holds.
pub unknown_passes :
    (fmul : Float32 → Float32 → Float32) (g : Driver) (locked : Bool) (now client_id : ℕ)
    (samples : List Float32) (frames channels : ℕ)
    → (locked ≡ false) ⊎ (find_pid g.clients client_id ≡ none)
    → app_volume_driver_apply_volume fmul g locked now client_id (some samples) frames channels
      ≡ some samples
unfolding app_volume_driver_get_volume app_volume_driver_get_pid app_volume_driver_apply_volume
unknown_passes fmul g locked now client_id samples frames channels unknown = ground arith
