-- ===== src/Cli/Set.antt =====
-- `audioctl set` (src/main.c): the volume of the device in use, and the switch to another device. The
-- product of a float, the text of a float and the system are parameters.
use audioctl.Base.{
  ℕ, ◌≤◌, ◌≡◌, ap, ◌∙◌, Bool, true, false, not, ◌&&◌, Option, none, some, List, [], ◌∷◌, length,
  ◌==◌, if◌then◌else◌, arith,
}
use audioctl.Base.Float.{Float32, f_zero, f_hundred, f_minus_one, flt, fle}
use audioctl.Base.Bytes.{Bytes, codes}
use audioctl.Manager.Binding.{
  IsOneLine, save_bound_physical_device, get_bound_physical_device_uid, get-save_bound,
}
use audioctl.Devices.{Hardware, has_uid, find_device_by_uid}
use audioctl.Devices.Find.{listed, find_device_by_uid_lem}
use audioctl.Cli.{same_string}
use audioctl.Cli.Options.{Device, find_running_device}

-- `strtof` gives the number at the start of a string and the rest.
unfoldable pub parse_volume : (Bytes → Float32 × Bytes) → Bytes → Float32
parse_volume strtof text =
    let (volume, rest) = strtof text in
    if (is_end rest && fle f_zero volume) && fle volume f_hundred then volume else f_minus_one
  where
    is_end : Bytes → Bool
    is_end [] = true
    is_end (c ∷ s) = false

-- What the command looks at: whether the virtual device is the default output, the binding file, the
-- calls for the bound device, and the list of devices (`none` if it cannot be had).
pub record Setting : Type 0 where
  pub virtual_active : Bool
  pub binding_file : Option Bytes
  pub hardware : Hardware
  pub devices : Option (List Device)

-- The device whose volume is set, `none` with an error.
unfoldable pub volume_target : Setting → Bool → Option ℕ
volume_target w for_input =
    if not for_input && w.virtual_active
    then elim (get_bound_physical_device_uid 256 w.binding_file) [
      | none ↦ none
      | some uid ↦
          let device = find_device_by_uid w.hardware uid in
          if device == 0 then none else some device
    ]
    else elim (w.devices) [ none ↦ none | some ds ↦ find_running_device for_input ds ]

-- The call of `setDeviceVolume`, with the volume before it is divided by 100, `none` where the
-- command ends before it with the exit status 1. The arguments are those from `argv[2]` on.
unfoldable pub handle_volume_set :
    (Bytes → Float32 × Bytes) → Setting → List Bytes → Option (ℕ × Float32)
handle_volume_set strtof w (option ∷ text ∷ []) =
    let for_input = same_string option (codes "-i") in
    let volume = parse_volume strtof text in
    if not for_input && not (same_string option (codes "-o"))
    then none
    else if flt volume f_zero
    then none
    else elim (volume_target w for_input) [ none ↦ none | some device ↦ some (device, volume) ]
handle_volume_set strtof w _ = none

-- While the virtual device is the default output, the volume of outputs is that of the bound physical
-- device: with the binding file as `save_bound_physical_device` has written it, `set -o` and an
-- accepted volume reach the device of that UID. The UID has 1 to 255 bytes without a null or a
-- newline, and the device is listed and is the only one that has it.
pub set_output_reaches_bound :
    (strtof : Bytes → Float32 × Bytes) (w : Setting) (text : Bytes) (p c : ℕ) (s : Bytes)
    (before : Option Bytes) (ds : List ℕ)
    → w.virtual_active ≡ true
    → w.binding_file ≡ (save_bound_physical_device true (c ∷ s) before).1
    → IsOneLine (c ∷ s)
    → length (c ∷ s) ≤ 255
    → w.hardware.devices ≡ some ds
    → listed p ds ≡ true
    → p == 0 ≡ false
    → has_uid w.hardware (c ∷ s) p ≡ true
    → ((e : ℕ) → has_uid w.hardware (c ∷ s) e ≡ true → e ≡ p)
    → flt (parse_volume strtof text) f_zero ≡ false
    → handle_volume_set strtof w (codes "-o" ∷ text ∷ []) ≡ some (p, parse_volume strtof text)
unfolding handle_volume_set volume_target same_string
set_output_reaches_bound strtof w text p c s before ds active file plain fits all there real named
      unique accepted =
    ground (
      arith,
      active,
      accepted,
      ap (get_bound_physical_device_uid 256) file ∙ get-save_bound c s before plain fits,
      find_device_by_uid_lem w.hardware (c ∷ s) p ds all there named unique,
      real,
    )
