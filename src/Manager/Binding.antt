-- ===== src/Manager/Binding.antt =====
-- The file binding_info.txt, which keeps the UID of the bound physical device
-- (src/virtual_device_manager.c).
use audioctl.Base.{
  ℕ, ◌-◌, ◌≤◌, ◌≡◌, refl, ap, ◌∙◌, Bool, true, false, Option, none, some, [], ◌∷◌, length, ◌==◌,
  if◌then◌else◌, arith,
}
use audioctl.Base.Bytes.{Bytes}
use audioctl.Base.Line.{c_string, line_of, fgets}
use audioctl.Base.Status.{OsStatus, no_err, minus_one}

-- Whether the file can be written, the string, and what the file held before and holds afterwards
-- (`none` if there is no file).
unfoldable pub save_bound_physical_device : Bool → Bytes → Option Bytes → OsStatus × Option Bytes
save_bound_physical_device writable uid file =
    if writable then (no_err, some uid) else (minus_one, file)

-- A last newline is taken off.
unfoldable pub strip_newline : Bytes → Bytes
strip_newline [] = []
strip_newline (c ∷ []) = if c == 10 then [] else c ∷ []
strip_newline (c ∷ d ∷ s) = c ∷ strip_newline (d ∷ s)

abbrev pub non_empty : Bytes → Option Bytes
non_empty [] = none
non_empty (c ∷ s) = some (c ∷ s)

-- `none` for false.
unfoldable pub get_bound_physical_device_uid : ℕ → Option Bytes → Option Bytes
get_bound_physical_device_uid size none = none
get_bound_physical_device_uid size (some bytes) = elim (fgets size bytes) [
  | none ↦ none
  | some line ↦ non_empty (strip_newline (c_string line))
]

abbrev pub clear_binding_info : Option Bytes → Option Bytes
clear_binding_info file = none

-- Neither a null nor a newline.
unfoldable pub IsOneLine : Bytes → Type 0
IsOneLine [] = Unit
IsOneLine (c ∷ s) = (c == 0 ≡ false) × (c == 10 ≡ false) × IsOneLine s

read_whole : (s : Bytes) (n : ℕ) → IsOneLine s → length s ≤ n → (line_of n s ≡ s) × (c_string s ≡ s)
unfolding line_of c_string IsOneLine
read_whole [] n p fits = (refl, refl)
read_whole (c ∷ s) n p fits =
    let (l, t) = read_whole s (n - 1) p.2 (omega arith) in ground (arith, p.0, p.1, l, t)

stripped : (s : Bytes) → IsOneLine s → strip_newline s ≡ s
unfolding strip_newline IsOneLine
stripped [] p = refl
stripped (c ∷ []) p = rw p.1 refl
stripped (c ∷ d ∷ s) p = ap (λ t. c ∷ t) (stripped (d ∷ s) p.2)

-- A UID of 1 to 255 bytes without a null or a newline is read back as it was saved, if the file can
-- be written.
pub get-save_bound :
    (c : ℕ) (s : Bytes) (file : Option Bytes)
    → IsOneLine (c ∷ s)
    → length (c ∷ s) ≤ 255
    → get_bound_physical_device_uid 256 (save_bound_physical_device true (c ∷ s) file).1
      ≡ some (c ∷ s)
unfolding get_bound_physical_device_uid save_bound_physical_device
get-save_bound c s file p fits =
    let (l, t) = read_whole (c ∷ s) 255 p fits in
    ap (λ line. non_empty (strip_newline (c_string line))) l
    ∙ ap (λ line. non_empty (strip_newline line)) t
    ∙ ap non_empty (stripped (c ∷ s) p)
