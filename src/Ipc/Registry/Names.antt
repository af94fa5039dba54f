-- ===== src/Ipc/Registry/Names.antt =====
-- C strings in fixed fields.
use audioctl.Base.{ℕ, zero, suc, ◌≡◌, refl, ap, [], ◌∷◌, ◌++◌, length, length-append, arith}
use audioctl.Base.Bytes.{Bytes}
unfoldable pub use audioctl.Base.Line.{c_string}

-- `strncpy` of `n` bytes: the string cut at `n`, or filled up with nulls.
unfoldable pub strncpy : ℕ → Bytes → Bytes
strncpy zero bs = []
strncpy (suc n) [] = 0 ∷ strncpy n []
strncpy (suc n) (b ∷ bs) = b ∷ strncpy n bs

-- The field `app_name`: 255 bytes and a null.
unfoldable pub app_name_of : Bytes → Bytes
app_name_of name = strncpy 255 (c_string name) ++ (0 ∷ [])

length-strncpy : (n : ℕ) (bs : Bytes) → length (strncpy n bs) ≡ n
unfolding strncpy
length-strncpy zero bs = refl
length-strncpy (suc n) [] = ap suc (length-strncpy n [])
length-strncpy (suc n) (b ∷ bs) = ap suc (length-strncpy n bs)

pub length-app_name_of : (name : Bytes) → length (app_name_of name) ≡ 256
unfolding app_name_of
length-app_name_of name = omega (
  arith,
  length-append {0} (strncpy 255 (c_string name)) (0 ∷ []),
  length-strncpy 255 (c_string name),
)
