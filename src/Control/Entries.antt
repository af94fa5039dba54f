-- ===== src/Control/Entries.antt =====
-- The entries of the application volumes as a list, whose first entry of a process counts.
use audioctl.Base.{
  ℕ, ◌+◌, ◌≡◌, refl, false, Option, none, some, List, [], ◌∷◌, ◌++◌, ◌==◌, if◌then◌else◌, if_either,
  Bool-cases, inl, inr, arith,
}
use audioctl.Control.Array.{AppVolumeInfo}

-- A lookup, a change and a removal on a list, at the first entry of a process.
unfoldable pub lookup : ℕ → List AppVolumeInfo → Option AppVolumeInfo
lookup pid [] = none
lookup pid (e ∷ es) = if e.pid == pid then some e else lookup pid es

unfoldable pub update :
    ℕ → (AppVolumeInfo → AppVolumeInfo) → List AppVolumeInfo → List AppVolumeInfo
update pid f [] = []
update pid f (e ∷ es) = if e.pid == pid then f e ∷ es else e ∷ update pid f es

unfoldable pub remove : ℕ → List AppVolumeInfo → List AppVolumeInfo
remove pid [] = []
remove pid (e ∷ es) = if e.pid == pid then es else e ∷ remove pid es

unfoldable pub active : List AppVolumeInfo → ℕ
active [] = 0
active (e ∷ es) = if e.is_active then 1 + active es else active es

-- No process has two entries.
unfoldable pub IsDistinct : List AppVolumeInfo → Type 0
IsDistinct [] = Unit
IsDistinct (e ∷ es) = (lookup e.pid es ≡ none) × IsDistinct es

lookup-update :
    (pid q : ℕ) (f : AppVolumeInfo → AppVolumeInfo) (es : List AppVolumeInfo)
    → ((e : AppVolumeInfo) → (f e).pid ≡ e.pid)
    → lookup q es ≡ none
    → lookup q (update pid f es) ≡ none
unfolding lookup update
lookup-update pid q f [] keeps h = refl
lookup-update pid q f (e ∷ es) keeps h = ground (arith, keeps e, lookup-update pid q f es keeps)

lookup-remove :
    (pid q : ℕ) (es : List AppVolumeInfo) → lookup q es ≡ none → lookup q (remove pid es) ≡ none
unfolding lookup remove
lookup-remove pid q [] h = refl
lookup-remove pid q (e ∷ es) h = ground (arith, lookup-remove pid q es)

lookup-append :
    (q : ℕ) (es : List AppVolumeInfo) (e : AppVolumeInfo)
    → lookup q es ≡ none
    → (e.pid == q) ≡ false
    → lookup q (es ++ (e ∷ [])) ≡ none
unfolding lookup
lookup-append q [] e h other = ground arith
lookup-append q (x ∷ es) e h other = ground (arith, lookup-append q es e)

pub update-IsDistinct :
    (pid : ℕ) (f : AppVolumeInfo → AppVolumeInfo) (es : List AppVolumeInfo)
    → ((e : AppVolumeInfo) → (f e).pid ≡ e.pid)
    → IsDistinct es
    → IsDistinct (update pid f es)
unfolding IsDistinct update
update-IsDistinct pid f [] keeps d = tt
update-IsDistinct pid f (e ∷ es) keeps d =
    if_either IsDistinct (e.pid == pid) _ _ (rw (keeps e) d)
      (lookup-update pid e.pid f es keeps d.0, update-IsDistinct pid f es keeps d.1)

pub remove-IsDistinct :
    (pid : ℕ) (es : List AppVolumeInfo) → IsDistinct es → IsDistinct (remove pid es)
unfolding IsDistinct remove
remove-IsDistinct pid [] d = tt
remove-IsDistinct pid (e ∷ es) d =
    if_either IsDistinct (e.pid == pid) _ _ d.1
      (lookup-remove pid e.pid es d.0, remove-IsDistinct pid es d.1)

pub append-IsDistinct :
    (es : List AppVolumeInfo) (e : AppVolumeInfo)
    → lookup e.pid es ≡ none
    → IsDistinct es
    → IsDistinct (es ++ (e ∷ []))
unfolding IsDistinct lookup
append-IsDistinct [] e h d = (refl, tt)
append-IsDistinct (x ∷ es) e h d = elim (Bool-cases (x.pid == e.pid)) [
  | inl same ↦ ground arith
  | inr other ↦
      (lookup-append x.pid es e d.0 (ground arith), append-IsDistinct es e (ground arith) d.1)
]

-- Without an entry of the process nothing changes.
pub update-none :
    (pid : ℕ) (f : AppVolumeInfo → AppVolumeInfo) (es : List AppVolumeInfo)
    → lookup pid es ≡ none
    → update pid f es ≡ es
unfolding lookup update
update-none pid f [] h = refl
update-none pid f (e ∷ es) h = ground (arith, update-none pid f es)

pub remove-none : (pid : ℕ) (es : List AppVolumeInfo) → lookup pid es ≡ none → remove pid es ≡ es
unfolding lookup remove
remove-none pid [] h = refl
remove-none pid (e ∷ es) h = ground (arith, remove-none pid es)
