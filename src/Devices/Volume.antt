-- ===== src/Devices/Volume.antt =====
-- The volume of the virtual device is that of the physical device behind it.
use audioctl.Base.{
  ℕ, zero, suc, ◌≤◌, ◌≡◌, refl, ap, ◌∙◌, List, ◌∷◌, length, Bool, true, false, Option, none, some,
  ◌==◌, if◌then◌else◌, arith,
}
use audioctl.Base.Float.{Float32, f_zero}
use audioctl.Base.Bytes.{Bytes}
use audioctl.Manager.Binding.{
  IsOneLine, save_bound_physical_device, get_bound_physical_device_uid, get-save_bound,
}
use audioctl.Cli.Options.{DeviceType}
use audioctl.Devices.Find.{listed, find_device_by_uid_lem}
use audioctl.Devices.{
  find_device_by_uid, has_uid, Hardware, is_virtual, bound_device, own_volume_info, get_volume_info,
}

-- The volume of a device without a recursion.
abbrev pub volume_behind : (Float32 → Float32) → Hardware → ℕ → DeviceType → Float32 × Bool
volume_behind scaled hw device kind =
    if is_virtual hw device
    then (if bound_device hw == 0
        then (f_zero, false)
        else own_volume_info scaled hw (bound_device hw) kind)
    else own_volume_info scaled hw device kind

-- `getVolumeInfo` calls itself at most once if the bound device is not the virtual one: with a depth
-- of two or more it gives the volume of the physical device for the virtual device, and a device's
-- own volume otherwise.
pub get_volume_info_lem :
    (scaled : Float32 → Float32) (hw : Hardware) (device : ℕ) (kind : DeviceType) (fuel : ℕ)
    → is_virtual hw (bound_device hw) ≡ false
    → get_volume_info (suc (suc fuel)) scaled hw device kind
      ≡ some (volume_behind scaled hw device kind)
unfolding get_volume_info
get_volume_info_lem scaled hw device kind fuel physical = ground (arith, physical)

-- No depth is enough if the binding names the virtual device itself.
pub get_volume_info_loops :
    (scaled : Float32 → Float32) (hw : Hardware) (device : ℕ) (kind : DeviceType) (fuel : ℕ)
    → is_virtual hw device ≡ true
    → is_virtual hw (bound_device hw) ≡ true
    → bound_device hw == 0 ≡ false
    → get_volume_info fuel scaled hw device kind ≡ none
unfolding get_volume_info
get_volume_info_loops scaled hw device kind zero virtual again bound = refl
get_volume_info_loops scaled hw device kind (suc fuel) virtual again bound =
    ground (arith, get_volume_info_loops scaled hw (bound_device hw) kind fuel again again bound)

followed :
    (scaled : Float32 → Float32) (hw : Hardware) (device p : ℕ) (kind : DeviceType)
    → is_virtual hw device ≡ true
    → bound_device hw ≡ p
    → p == 0 ≡ false
    → some (volume_behind scaled hw device kind) ≡ some (own_volume_info scaled hw p kind)
followed scaled hw device p kind virtual behind real = ap some (
    ap
      (λ b.
        if b
        then (if bound_device hw == 0
            then (f_zero, false)
            else own_volume_info scaled hw (bound_device hw) kind)
        else own_volume_info scaled hw device kind)
      virtual
    ∙ ap (λ d. if d == 0 then (f_zero, false) else own_volume_info scaled hw d kind) behind
    ∙ ap (λ b. if b then (f_zero, false) else own_volume_info scaled hw p kind) real)

-- After `save_bound_physical_device` of the UID of a physical device, the volume of the virtual device
-- is that of the physical one, for any depth of two calls or more, so `getVolumeInfo` ends. The UID
-- has 1 to 255 bytes without a null or a newline, the device is listed and is the only one that has
-- it, and it is not the virtual device.
pub volume_follows_binding :
    (scaled : Float32 → Float32) (hw : Hardware) (device p : ℕ) (kind : DeviceType) (fuel c : ℕ)
    (s : Bytes) (file : Option Bytes) (ds : List ℕ)
    → hw.bound_uid
      ≡ get_bound_physical_device_uid 256 (save_bound_physical_device true (c ∷ s) file).1
    → IsOneLine (c ∷ s)
    → length (c ∷ s) ≤ 255
    → hw.devices ≡ some ds
    → listed p ds ≡ true
    → p == 0 ≡ false
    → has_uid hw (c ∷ s) p ≡ true
    → ((e : ℕ) → has_uid hw (c ∷ s) e ≡ true → e ≡ p)
    → is_virtual hw p ≡ false
    → is_virtual hw device ≡ true
    → get_volume_info (suc (suc fuel)) scaled hw device kind
      ≡ some (own_volume_info scaled hw p kind)
volume_follows_binding scaled hw device p kind fuel c s file ds bound plain fits all there real
      named unique physical virtual =
    get_volume_info_lem scaled hw device kind fuel (ap (is_virtual hw) behind ∙ physical)
    ∙ followed scaled hw device p kind virtual behind real
  where
    behind : bound_device hw ≡ p
    behind =
        ap (λ (o : Option Bytes). elim o [ none ↦ 0 | some uid ↦ find_device_by_uid hw uid ])
          (bound ∙ get-save_bound c s file plain fits)
        ∙ find_device_by_uid_lem hw (c ∷ s) p ds all there named unique
