-- ===== src/Cli/Numbers.antt =====
-- The device number of `audioctl set` (src/main.c).
use audioctl.Base.{
  ℕ, ◌-◌, ◌^◌, ◌<◌, ◌≡◌, refl, ap, ◌∙◌, Bool, true, false, not, ◌&&◌, Option, none, some, [], ◌∷◌,
  ltb, leb, if◌then◌else◌, Option-cases, inl, inr, ◌⊎◌, arith,
}
use audioctl.Base.Bytes.{Bytes}
use audioctl.Base.Decimal.{print_int, Scanned, no_number, number, strtol, strtol-print_end}

abbrev pub is_end : Bytes → Bool
is_end [] = true
is_end (c ∷ s) = false

-- `none` for -1. Without a number the result of `strtol` is 0; a number out of its range gives the
-- largest or the smallest `long`.
abbrev pub accepted_id : Scanned → Option ℕ
accepted_id no_number = none
accepted_id (number negative n rest) =
    if (is_end rest && not negative) && (ltb 0 n && leb n (2 ^ 31 - 1)) then some n else none

unfoldable pub parse_device_id : Bytes → Option ℕ
parse_device_id s = accepted_id (strtol s)

taken_bounds :
    (negative : Bool) (n : ℕ) (rest : Bytes) (m : ℕ)
    → accepted_id (number negative n rest) ≡ some m
    → (0 < m) × (m < 2 ^ 31)
taken_bounds negative n rest m taken = ground (arith, taken)

accepted_bounds :
    (x : Scanned)
    → (accepted_id x ≡ none) ⊎ ((m : ℕ) × (accepted_id x ≡ some m) × (0 < m) × (m < 2 ^ 31))
accepted_bounds no_number = inl refl
accepted_bounds (number negative n rest) =
    elim (Option-cases (accepted_id (number negative n rest))) [
      | inl refused ↦ inl refused
      | inr (m, taken) ↦ inr (
        m,
        taken,
        (taken_bounds negative n rest m taken).0,
        (taken_bounds negative n rest m taken).1,
      )
    ]

-- The number of a device that is positive and an `int` is read back from its decimal digits, and
-- whatever is accepted is positive and an `int`.
pub parse_device_id_lem :
    (s : Bytes) (n : ℕ)
    → 0 < n
    → n < 2 ^ 31
    → (parse_device_id (print_int n []) ≡ some n)
      × ((parse_device_id s ≡ none)
          ⊎ ((m : ℕ) × (parse_device_id s ≡ some m) × (0 < m) × (m < 2 ^ 31)))
unfolding parse_device_id
parse_device_id_lem s n positive small = (
  ap accepted_id (strtol-print_end n (omega arith)) ∙ ground (arith, positive, small),
  accepted_bounds (strtol s),
)
