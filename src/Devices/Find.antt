-- ===== src/Devices/Find.antt =====
-- What `find_device_by_uid` finds.
use audioctl.Base.{
  ℕ, ◌≡◌, inl, inr, Bool, true, false, ◌||◌, Option, none, some, List, [], ◌∷◌, ◌==◌, Bool-cases,
  arith, ==_iff, sym, ap, ◌∙◌,
}
use audioctl.Base.Bytes.{Bytes}
use audioctl.Devices.{Hardware, has_uid, first_with_uid, find_device_by_uid}

unfoldable pub listed : ℕ → List ℕ → Bool
listed d [] = false
listed d (e ∷ es) = d == e || listed d es

no_both : ¬ (false ≡ true)
no_both h = ground arith

same_uid :
    (hw : Hardware) (uid : Bytes) (d e : ℕ) → (d == e) ≡ true → has_uid hw uid e ≡ has_uid hw uid d
same_uid hw uid d e same = ap (has_uid hw uid) (sym ((==_iff d e).0 same))

listed_behind :
    (hw : Hardware) (uid : Bytes) (d e : ℕ) (es : List ℕ)
    → has_uid hw uid e ≡ false
    → has_uid hw uid d ≡ true
    → listed d (e ∷ es) ≡ true
    → listed d es ≡ true
unfolding listed
listed_behind hw uid d e es other named there = elim (Bool-cases (d == e)) [
  | inl same ↦ absurd (no_both (sym other ∙ same_uid hw uid d e same ∙ named))
  | inr apart ↦ rw apart at there
]

first_unique :
    (hw : Hardware) (uid : Bytes) (d : ℕ) (ds : List ℕ)
    → listed d ds ≡ true
    → has_uid hw uid d ≡ true
    → ((e : ℕ) → has_uid hw uid e ≡ true → e ≡ d)
    → first_with_uid hw uid ds ≡ d
unfolding first_with_uid listed
first_unique hw uid d [] there named unique = absurd (no_both there)
first_unique hw uid d (e ∷ es) there named unique = elim (Bool-cases (has_uid hw uid e)) [
  | inl same ↦ rw same (unique e same)
  | inr other ↦
      rw other
        (first_unique hw uid d es (listed_behind hw uid d e es other named there) named unique)
]

-- A listed device with the UID is found, if it is the only one that has it.
pub find_device_by_uid_lem :
    (hw : Hardware) (uid : Bytes) (d : ℕ) (ds : List ℕ)
    → hw.devices ≡ some ds
    → listed d ds ≡ true
    → has_uid hw uid d ≡ true
    → ((e : ℕ) → has_uid hw uid e ≡ true → e ≡ d)
    → find_device_by_uid hw uid ≡ d
unfolding find_device_by_uid
find_device_by_uid_lem hw uid d ds all there named unique =
    ap (λ (o : Option (List ℕ)). elim o [ none ↦ 0 | some es ↦ first_with_uid hw uid es ]) all
    ∙ first_unique hw uid d ds there named unique
