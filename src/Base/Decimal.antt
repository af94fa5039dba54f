-- ===== src/Base/Decimal.antt =====
-- Decimal numbers as the C library writes and reads them: `"%d"` of a number that is not negative,
-- and `strtol` in base 10.
use audioctl.Base.Tests.{ltb, leb, ◌==◌, if◌then◌else◌, Bool-cases}
use audioctl.Base.Bytes.{Bytes}
use Prim.Native.Nat.{ℕ, zero, suc, ◌+◌, ◌-◌, ◌*◌, ◌/◌, ◌%◌, ◌^◌, ◌<◌}
use mathlib.Core.Path.{◌≡◌, refl, sym, ap, ◌∙◌}
use mathlib.Core.Logic.{inl, inr}
use mathlib.Core.Bool.{Bool, true, false, ◌&&◌, ◌||◌}
use mathlib.Core.List.{[], ◌∷◌}
use native.Mathlib.Omega.{arith}

-- The digits of a number in front of what is there, at most `fuel` of them.
unfoldable pub print_digits : ℕ → ℕ → Bytes → Bytes
print_digits zero n out = out
print_digits (suc fuel) n out =
    let out' = (48 + n % 10) ∷ out in
    let rest = print_digits fuel (n / 10) out' in if n / 10 == 0 then out' else rest

-- `"%d"` of an `int` that is not negative, or `"%u"`: ten digits are enough below 2 ^ 32.
abbrev pub print_int : ℕ → Bytes → Bytes
print_int n out = print_digits 10 n out

abbrev pub is_digit : ℕ → Bool
is_digit c = leb 48 c && leb c 57

abbrev pub is_space : ℕ → Bool
is_space c = c == 32 || (leb 9 c && leb c 13)

-- The number that the digits at the start spell behind `n`, and the rest.
unfoldable pub scan_digits : ℕ → Bytes → ℕ × Bytes
scan_digits n [] = (n, [])
scan_digits n (c ∷ s) =
    let rest = scan_digits (10 * n + (c - 48)) s in if is_digit c then rest else (n, c ∷ s)

-- The end of the number is the start of the string when there is no digit.
pub data Scanned : Type 0 where
  no_number : Scanned
  number : Bool → ℕ → Bytes → Scanned

unfoldable pub scan_magnitude : Bool → Bytes → Scanned
scan_magnitude negative [] = no_number
scan_magnitude negative (c ∷ s) =
    let (n, rest) = scan_digits 0 (c ∷ s) in
    if is_digit c then number negative n rest else no_number

abbrev scan_sign : Bytes → Scanned
scan_sign [] = no_number
scan_sign (c ∷ s) =
    if c == 45
    then scan_magnitude true s
    else if c == 43
    then scan_magnitude false s
    else scan_magnitude false (c ∷ s)

-- The sign, the magnitude and the rest. The magnitude is exact: where it does not fit a `long`,
-- `errno` is ERANGE.
unfoldable pub strtol : Bytes → Scanned
strtol [] = no_number
strtol (c ∷ s) = let rest = strtol s in if is_space c then rest else scan_sign (c ∷ s)

abbrev pub is_out_of_range : Bool → ℕ → Bool
is_out_of_range true n = ltb (2 ^ 63) n
is_out_of_range false n = leb (2 ^ 63) n

-- 10 ^ n
abbrev pub ten_to : ℕ → ℕ
ten_to zero = 1
ten_to (suc n) = 10 * ten_to n

digit_step :
    (m d : ℕ) (out : Bytes) → d < 10 → scan_digits m ((48 + d) ∷ out) ≡ scan_digits (10 * m + d) out
unfolding scan_digits
digit_step m d out small = ground (arith) ∙ ap (λ k. scan_digits (10 * m + k) out) (digit_value d)
  where
    digit_value : (d : ℕ) → 48 + d - 48 ≡ d
    digit_value d = omega arith

-- Reading behind zero gives back what was written.
pub scan-print_digits :
    (fuel n : ℕ) (out : Bytes)
    → n < ten_to fuel
    → scan_digits 0 (print_digits fuel n out) ≡ scan_digits n out
unfolding print_digits
scan-print_digits zero n out h = ap (λ k. scan_digits k out) (omega arith)
scan-print_digits (suc fuel) n out h = elim (Bool-cases (n / 10 == 0)) [
  | inl last ↦
      rw last (
        digit_step 0 (n % 10) out (omega arith)
        ∙ ap (λ k. scan_digits k out) (ground (arith, last)))
  | inr more ↦ rw more (
      scan-print_digits fuel (n / 10) ((48 + n % 10) ∷ out) (omega arith)
      ∙ digit_step (n / 10) (n % 10) out (omega arith)
      ∙ ap (λ k. scan_digits k out) (omega arith))
]

-- What is written begins with a digit.
pub print_digits-first :
    (fuel n : ℕ) (out : Bytes)
    → (c : ℕ) × (rest : Bytes) × (print_digits (suc fuel) n out ≡ c ∷ rest) × (is_digit c ≡ true)
unfolding print_digits
print_digits-first zero n out = (48 + n % 10, out, ground arith, ground arith)
print_digits-first (suc fuel) n out = elim (Bool-cases (n / 10 == 0)) [
  | inl last ↦ (48 + n % 10, out, rw last refl, ground arith)
  | inr more ↦
      let (c, rest, same, digit) = print_digits-first fuel (n / 10) ((48 + n % 10) ∷ out) in
      (c, rest, rw more same, digit)
]

digit_first :
    (c : ℕ) (s : Bytes)
    → is_digit c ≡ true
    → strtol (c ∷ s) ≡ (let (n, rest) = scan_digits 0 (c ∷ s) in number false n rest)
unfolding strtol scan_magnitude
digit_first c s h = ground arith

-- `strtol` reads back what `"%d"` has written, up to the first byte behind it that is no digit.
pub strtol-print_int :
    (n c : ℕ) (rest : Bytes)
    → n < 2 ^ 31
    → is_digit c ≡ false
    → strtol (print_int n (c ∷ rest)) ≡ number false n (c ∷ rest)
unfolding scan_digits
strtol-print_int n c rest small stop =
    let (d, s, same, digit) = print_digits-first 9 n (c ∷ rest) in
    rw same (digit_first d s digit)
    ∙ ap (λ (r : ℕ × Bytes). number false r.0 r.1)
        (ap (scan_digits 0) (sym same)
          ∙ scan-print_digits 10 n (c ∷ rest) (omega arith)
          ∙ rw stop refl)

-- The same at the end of the string, with room for the numbers of 32 bits.
pub strtol-print_end : (n : ℕ) → n < 2 ^ 32 → strtol (print_int n []) ≡ number false n []
unfolding scan_digits
strtol-print_end n small =
    let (d, s, same, digit) = print_digits-first 9 n [] in
    rw same (digit_first d s digit)
    ∙ ap (λ (r : ℕ × Bytes). number false r.0 r.1)
        (ap (scan_digits 0) (sym same) ∙ scan-print_digits 10 n [] (omega arith))
