-- ===== src/Router/Ring/Mask.antt =====
-- The bit mask of the ring buffer takes the remainder by its size.
use Prim.Native.Nat.{bit_and, digits, bit_and-bitwise}
use audioctl.Base.{ℕ, zero, suc, ◌+◌, ◌*◌, ◌/◌, ◌%◌, ◌≤◌, ◌<◌, min, ◌≡◌, refl, sym, ap, ◌∙◌, arith}
use native.Mathlib.Nat.{div-add-mod, mod-eq_of_lt, mod-lt, add-mul-mod_self_left}
use audioctl.Router.Ring.{buffer_mask, total_samples}

-- Masking by `m` takes the remainder by `d`, at every count of digits that suffices.
abbrev Masks : ℕ → ℕ → Type 0
Masks m d = (n a : ℕ) → a ≤ n → digits (λ b. zero) min n a m ≡ a % d

zero_Masks : Masks 0 1
zero_Masks zero zero h = omega arith
zero_Masks zero (suc a) h = absurd (omega arith)
zero_Masks (suc n) zero h = omega arith
zero_Masks (suc n) (suc a) h = omega (arith, zero_Masks n (suc a / 2) (omega arith))

-- The remainder by `2 * d` from that of the half by `d`.
mod_halves : (a d : ℕ) → 0 < d → (a / 2) % d * 2 + a % 2 ≡ a % (2 * d)
mod_halves a d h = sym (ap (λ t. t % (2 * d)) split ∙ add-mul-mod_self_left x (2 * d) q ∙ small)
  where
    x : ℕ
    x = (a / 2) % d * 2 + a % 2

    q : ℕ
    q = a / 2 / d

    split : a ≡ x + 2 * d * q
    split = grind (arith, div-add-mod (a / 2) d, div-add-mod a 2)

    small : x % (2 * d) ≡ x
    small = mod-eq_of_lt (omega (arith, mod-lt (a / 2) h))

zero-digits : (n m : ℕ) → digits (λ b. zero) min n 0 m ≡ 0
zero-digits zero m = refl
zero-digits (suc n) m = refl

next_Masks : (m d : ℕ) → 0 < d → Masks m d → Masks (2 * m + 1) (2 * d)
next_Masks m d p mask n zero h = omega (arith, zero-digits n (2 * m + 1), mod_halves 0 d p)
next_Masks m d p mask zero (suc a) h = absurd (omega arith)
next_Masks m d p mask (suc n) (suc a) h =
    rw (half, odd) (omega (arith, mod_halves (suc a) d p, mask n (suc a / 2) (omega arith)))
  where
    half : (2 * m + 1) / 2 ≡ m
    half = omega arith

    odd : (2 * m + 1) % 2 ≡ 1
    odd = omega arith

-- The mask of `k` ones, and 2 ^ k.
abbrev ones : ℕ → ℕ
ones zero = 0
ones (suc k) = 2 * ones k + 1

abbrev twos : ℕ → ℕ
twos zero = 1
twos (suc k) = 2 * twos k

twos_pos : (k : ℕ) → 0 < twos k
twos_pos zero = omega arith
twos_pos (suc k) = omega (arith, twos_pos k)

ones-Masks : (k : ℕ) → Masks (ones k) (twos k)
ones-Masks zero = zero_Masks
ones-Masks (suc k) = next_Masks (ones k) (twos k) (twos_pos k) (ones-Masks k)

-- Masking a position gives its place in the buffer.
pub bit_and-buffer_mask : (a : ℕ) → bit_and a buffer_mask ≡ a % total_samples
bit_and-buffer_mask a = bit_and-bitwise a buffer_mask ∙ ones-Masks 12 a a (omega arith)
