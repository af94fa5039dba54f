-- ===== src/Base/Float.antt =====
-- A 32-bit float (`float`, `Float32`) as its bit pattern, a number below 2 ^ 32, and the C
-- comparison `a < b` on patterns: false if either is a NaN, and -0.0 equal to 0.0. Products and
-- quotients, which round, are parameters of the definitions that use them.
use audioctl.Base.Tests.{ltb, if◌then◌else◌}
use Prim.Native.Nat.{ℕ, ◌+◌, ◌-◌, ◌%◌, ◌^◌}
use mathlib.Core.Bool.{Bool, not, ◌&&◌}

abbrev pub Float32 : Type 0
Float32 = ℕ

-- The patterns of 0.0f, 1.0f, -1.0f, 0.999f and 100.0f.
abbrev pub f_zero : Float32
f_zero = 0

abbrev pub f_one : Float32
f_one = 0x3f80_0000

abbrev pub f_minus_one : Float32
f_minus_one = 0xbf80_0000

abbrev pub f_0_999 : Float32
f_0_999 = 0x3f7f_be77

abbrev pub f_hundred : Float32
f_hundred = 0x42c8_0000

-- A NaN has all exponent bits and a fraction.
abbrev pub is_nan : Float32 → Bool
is_nan x = ltb 0x7f80_0000 (x % 2 ^ 31)

-- The place of a pattern in the order of the floats: negative ones below 2 ^ 31.
abbrev pub rank : Float32 → ℕ
rank x = if ltb x (2 ^ 31) then 2 ^ 31 + x else 2 ^ 32 - x

abbrev pub flt : Float32 → Float32 → Bool
flt a b = (not (is_nan a) && not (is_nan b)) && ltb (rank a) (rank b)

-- `a <= b`
abbrev pub fle : Float32 → Float32 → Bool
fle a b = (not (is_nan a) && not (is_nan b)) && not (ltb (rank b) (rank a))
