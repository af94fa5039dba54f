-- ===== src/Ipc/Registry/Volume.antt =====
-- The clamp of a volume, on every bit pattern of a float.
use audioctl.Base.{◌<◌, ◌^◌, ◌≡◌, ◌⊎◌, true, false, arith}
use audioctl.Base.Float.{Float32, f_zero, f_one, flt, fle, is_nan}
use audioctl.Ipc.Registry.{clamp_volume}

-- A volume that is a number ends up between 0 and 1: it is kept, or it is below 0 and becomes 0, or
-- it is above 1 and becomes 1. A NaN passes as it is.
pub clamp_volume_lem :
    (volume : Float32)
    → volume < 2 ^ 32
    → ((is_nan volume ≡ true) × (clamp_volume volume ≡ volume))
      ⊎ ((is_nan volume ≡ false)
          × (fle f_zero (clamp_volume volume) ≡ true)
          × (fle (clamp_volume volume) f_one ≡ true)
          × ((clamp_volume volume ≡ volume)
              ⊎ ((flt volume f_zero ≡ true) × (clamp_volume volume ≡ f_zero))
              ⊎ ((flt f_one volume ≡ true) × (clamp_volume volume ≡ f_one))))
unfolding clamp_volume
clamp_volume_lem volume h = ground arith
