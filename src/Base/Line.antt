-- ===== src/Base/Line.antt =====
-- Lines of text as the C library reads them: `fgets`, and the end of a string at its null.
use audioctl.Base.Tests.{◌==◌, if◌then◌else◌, Bool-cases}
use audioctl.Base.Lists.{length}
use audioctl.Base.Bytes.{Bytes}
use audioctl.Base.Decimal.{print_digits, is_digit}
use Prim.Native.Nat.{ℕ, zero, suc, ◌+◌, ◌-◌, ◌/◌, ◌%◌, ◌<◌, ◌≤◌}
use mathlib.Core.Path.{◌≡◌, refl, sym, ap, ◌∙◌}
use mathlib.Core.Logic.{inl, inr}
use mathlib.Core.Bool.{true}
use mathlib.Core.Option.{Option, none, some}
use mathlib.Core.List.{[], ◌∷◌, ◌++◌, append_assoc}
use native.Mathlib.Omega.{arith}

-- The bytes before the first null. A string that runs past its memory, which C leaves undefined,
-- ends with it here.
unfoldable pub c_string : Bytes → Bytes
c_string [] = []
c_string (b ∷ bs) = if b == 0 then [] else b ∷ c_string bs

-- `fgets` with a buffer of `size` bytes: through the first newline, at most `size - 1` bytes, and
-- `none` at the end of the file.
unfoldable pub line_of : ℕ → Bytes → Bytes
line_of n [] = []
line_of n (c ∷ s) =
    let rest = line_of (n - 1) s in if n == 0 then [] else if c == 10 then c ∷ [] else c ∷ rest

abbrev pub fgets : ℕ → Bytes → Option Bytes
fgets size [] = none
fgets size (c ∷ s) = some (line_of (size - 1) (c ∷ s))

-- A line of digits goes through `fgets` and the end of its string as it is.
pub IsPlain : Bytes → Type 0
IsPlain [] = Unit
IsPlain (c ∷ s) = (is_digit c ≡ true) × IsPlain s

line_of-digits :
    (s : Bytes) (n : ℕ)
    → IsPlain s
    → length s < n
    → (line_of n (s ++ (10 ∷ [])) ≡ s ++ (10 ∷ [])) × (c_string (s ++ (10 ∷ [])) ≡ s ++ (10 ∷ []))
unfolding line_of c_string IsPlain
line_of-digits [] n p fits = (ground arith, ground arith)
line_of-digits (c ∷ s) n p fits =
    let (l, t) = line_of-digits s (n - 1) p.1 (omega arith) in ground (arith, p.0, l, t)

IsPlain-append :
    (s : Bytes) (d : ℕ)
    → IsPlain s
    → is_digit d ≡ true
    → IsPlain (s ++ (d ∷ [])) × (length (s ++ (d ∷ [])) ≡ length s + 1)
unfolding IsPlain
IsPlain-append [] d p h = ((h, tt), refl)
IsPlain-append (c ∷ s) d p h =
    let (plain, size) = IsPlain-append s d p.1 h in ((p.0, plain), omega (arith, size))

pub print_digits-IsPlain :
    (fuel n : ℕ) (out : Bytes)
    → (s : Bytes) × IsPlain s × (length s ≤ fuel) × (print_digits fuel n out ≡ s ++ out)
unfolding print_digits IsPlain
print_digits-IsPlain zero n out = ([], tt, omega arith, refl)
print_digits-IsPlain (suc fuel) n out = elim (Bool-cases (n / 10 == 0)) [
  | inl last ↦ ((48 + n % 10) ∷ [], (ground arith, tt), ground arith, rw last refl)
  | inr more ↦
      let (s, plain, size, same) = print_digits-IsPlain fuel (n / 10) ((48 + n % 10) ∷ out) in
      let (plain', size') = IsPlain-append s (48 + n % 10) plain (ground arith) in
      (
        s ++ ((48 + n % 10) ∷ []),
        plain',
        omega (arith, size, size'),
        rw more (same ∙ sym (append_assoc s ((48 + n % 10) ∷ []) out)),
      )
]

pub fgets-line :
    (s : Bytes)
    → IsPlain s
    → length s < 31
    → (fgets 32 (s ++ (10 ∷ [])) ≡ some (s ++ (10 ∷ [])))
      × (c_string (s ++ (10 ∷ [])) ≡ s ++ (10 ∷ []))
unfolding IsPlain line_of c_string
fgets-line [] p fits = (refl, refl)
fgets-line (c ∷ s) p fits = let (l, t) = line_of-digits (c ∷ s) 31 p fits in (ap some l, t)

-- Without a newline the whole text is the line.
line_of-plain :
    (s : Bytes) (n : ℕ) → IsPlain s → length s < n → (line_of n s ≡ s) × (c_string s ≡ s)
unfolding line_of c_string IsPlain
line_of-plain [] n p fits = (refl, refl)
line_of-plain (c ∷ s) n p fits =
    let (l, t) = line_of-plain s (n - 1) p.1 (omega arith) in ground (arith, p.0, l, t)

pub fgets-plain :
    (c : ℕ) (s : Bytes)
    → IsPlain (c ∷ s)
    → length (c ∷ s) < 31
    → (fgets 32 (c ∷ s) ≡ some (c ∷ s)) × (c_string (c ∷ s) ≡ c ∷ s)
fgets-plain c s p fits = let (l, t) = line_of-plain (c ∷ s) 31 p fits in (ap some l, t)
