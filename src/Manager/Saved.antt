-- ===== src/Manager/Saved.antt =====
-- The file that keeps the device to go back to.
use audioctl.Base.{ℕ, ◌^◌, ◌<◌, ◌≡◌, ap, ◌∙◌, sym, true, some, [], ◌∷◌, length, arith, append-nil}
use mathlib.Core.Path.{subst}
use audioctl.Base.Bytes.{Bytes}
use audioctl.Base.Decimal.{strtol, print_digits-first, strtol-print_end}
use audioctl.Base.Line.{c_string, fgets, IsPlain, print_digits-IsPlain, fgets-plain}
use audioctl.Manager.{Machine, save_current_device, restore_previous_device, as_u32}

restored :
    (bytes : Bytes)
    → fgets 32 bytes ≡ some bytes
    → restore_previous_device (some bytes) ≡ as_u32 (strtol (c_string bytes))
unfolding restore_previous_device
restored bytes got = ground (arith, got)

-- A device number that `save_current_device` has written is the one that `restore_previous_device`
-- reads, if the file can be written and the number is a `UInt32`.
pub restore-save_device :
    {S : Type 0} (m : Machine S) (device : ℕ)
    → m.writable ≡ true
    → device < 2 ^ 32
    → restore_previous_device (save_current_device m device).1.state_file ≡ device
unfolding save_current_device
restore-save_device m device can_write small =
    let (c, rest, same, digit) = print_digits-first 9 device [] in
    let (s, plain, size, text) = print_digits-IsPlain 10 device [] in
    let line = sym (append-nil s) ∙ sym text ∙ same in
    let (got, string) =
      fgets-plain c rest (subst IsPlain line plain) (omega (arith, ap length line, size)) in
    rw (can_write, same)
      (restored (c ∷ rest) got
        ∙ ap (λ b. as_u32 (strtol b)) (string ∙ sym same)
        ∙ ap as_u32 (strtol-print_end device small)
        ∙ ground (arith, small))
