-- ===== src/Base/Bytes.antt =====
-- Byte strings of packed structures: little-endian fields of a fixed number of bytes.
use audioctl.Base.Lists.{length}
use Prim.Native.Nat.{ℕ, zero, suc, ◌+◌, ◌*◌, ◌/◌, ◌%◌, ◌<◌}
use mathlib.Core.Path.{◌≡◌, refl}
use mathlib.Core.List.{List, [], ◌∷◌, ◌++◌}
use Prim.Native.Char.{code}
use Prim.Native.String.{String}
use native.Mathlib.Omega.{arith}

-- A byte string; each element is below 256 where it comes from a socket.
abbrev pub Bytes : Type 0
Bytes = List ℕ

-- The `n` low bytes of a number, the lowest first.
unfoldable pub encode_le : ℕ → ℕ → Bytes
encode_le zero x = []
encode_le (suc n) x = (x % 256) ∷ encode_le n (x / 256)

-- The number that the first `n` bytes stand for.
unfoldable pub decode_le : ℕ → Bytes → ℕ
decode_le zero bs = 0
decode_le (suc n) [] = 0
decode_le (suc n) (b ∷ bs) = b + 256 * decode_le n bs

-- 256 ^ n
abbrev pub capacity_of : ℕ → ℕ
capacity_of zero = 1
capacity_of (suc n) = 256 * capacity_of n

pub length-encode_le : (n x : ℕ) → length (encode_le n x) ≡ n
unfolding encode_le
length-encode_le zero x = refl
length-encode_le (suc n) x = omega (arith, length-encode_le n (x / 256))

pub decode_le-encode_le :
    (n x : ℕ) (rest : Bytes) → x < capacity_of n → decode_le n (encode_le n x ++ rest) ≡ x
unfolding encode_le decode_le
decode_le-encode_le zero x rest h = omega arith
decode_le-encode_le (suc n) x rest h =
    omega (arith, decode_le-encode_le n (x / 256) rest (omega arith))

-- A literal as the bytes of its ASCII characters.
abbrev pub codes : String → Bytes
codes String.[] = []
codes (String.◌∷◌ c s) = code c ∷ codes s
