-- ===== src/Control/Loops.antt =====
-- The loops over the array, by index, and the list of the entries that are in use.
use audioctl.Base.{
  ℕ, zero, suc, ◌-◌, ◌≤◌, ◌<◌, ◌≡◌, refl, ap, ◌∙◌, true, false, Option, none, some, List, [], ◌∷◌,
  ◌++◌, get_or, set, take, length, ◌==◌, Option-cases, inl, inr, arith, Bool-cases, length-set,
}
use mathlib.Core.Path.{subst}
use audioctl.Control.Entries.{lookup, update, remove, active}
use audioctl.Control.Array.{AppVolumeInfo, blank, find_loop, shift_loop, active_loop}

abbrev pub moved : Option ℕ → Option ℕ
moved none = none
moved (some i) = some (suc i)

find_loop_tail :
    (e : AppVolumeInfo) (es : List AppVolumeInfo) (pid n i : ℕ)
    → find_loop (e ∷ es) pid n (suc i) ≡ moved (find_loop es pid n i)
unfolding find_loop
find_loop_tail e es pid zero i = refl
find_loop_tail e es pid (suc n) i = ground (arith, find_loop_tail e es pid n (suc i))

shift_loop_tail :
    (e : AppVolumeInfo) (es : List AppVolumeInfo) (n j : ℕ)
    → shift_loop (e ∷ es) n (suc j) ≡ e ∷ shift_loop es n j
unfolding shift_loop
shift_loop_tail e es zero j = refl
shift_loop_tail e es (suc n) j = shift_loop_tail e (set es j (get_or es (suc j) blank)) n (suc j)

active_loop_tail :
    (e : AppVolumeInfo) (es : List AppVolumeInfo) (n i : ℕ)
    → active_loop (e ∷ es) n (suc i) ≡ active_loop es n i
unfolding active_loop
active_loop_tail e es zero i = refl
active_loop_tail e es (suc n) i = ground (arith, active_loop_tail e es n (suc i))

-- The first entry of a process among the first `n` stands at this place.
pub data IsAt (pid : ℕ) : List AppVolumeInfo → ℕ → ℕ → Type 0 where
  here :
      {e : AppVolumeInfo} {es : List AppVolumeInfo} {n : ℕ}
      → e.pid == pid ≡ true
      → IsAt pid (e ∷ es) (suc n) 0
  there :
      {e : AppVolumeInfo} {es : List AppVolumeInfo} {n i : ℕ}
      → e.pid == pid ≡ false
      → IsAt pid es n i
      → IsAt pid (e ∷ es) (suc n) (suc i)

-- The walk from the start finds nothing, like the lookup, or that place.
pub find_loop-none :
    (es : List AppVolumeInfo) (pid n : ℕ)
    → n ≤ length es
    → find_loop es pid n 0 ≡ none
    → lookup pid (take n es) ≡ none
unfolding find_loop lookup
find_loop-none es pid zero fits h = refl
find_loop-none [] pid (suc n) fits h = absurd (omega arith)
find_loop-none (e ∷ es) pid (suc n) fits h = ground (
  arith,
  find_loop_tail e es pid n 0,
  find_loop-none es pid n,
  Option-cases (find_loop es pid n 0),
)

pub find_loop-IsAt :
    (es : List AppVolumeInfo) (pid n : ℕ) {i : ℕ}
    → n ≤ length es
    → find_loop es pid n 0 ≡ some i
    → IsAt pid es n i
unfolding find_loop
find_loop-IsAt es pid zero fits h = cc
find_loop-IsAt [] pid (suc n) fits h = absurd (omega arith)
find_loop-IsAt (e ∷ es) pid (suc n) {i} fits h = elim (Bool-cases (e.pid == pid)) [
  | inl same ↦ subst (IsAt pid (e ∷ es) (suc n)) (ground arith) (here {es = es} {n = n} same)
  | inr other ↦ elim (Option-cases (find_loop es pid n 0)) [
    | inl nothing ↦ ground (arith, find_loop_tail e es pid n 0)
    | inr (j, found) ↦
        subst (IsAt pid (e ∷ es) (suc n)) (ground (arith, find_loop_tail e es pid n 0))
          (there other (find_loop-IsAt es pid n (omega arith) found))
  ]
]

-- What stands at the place, and what a write there and the removal do to the entries in use.
pub IsAt-bound : {pid : ℕ} {es : List AppVolumeInfo} {n i : ℕ} → IsAt pid es n i → i < n
IsAt-bound (here same) = omega arith
IsAt-bound (there other at) = omega (arith, IsAt-bound at)

pub IsAt-lookup :
    {pid : ℕ} {es : List AppVolumeInfo} {n i : ℕ}
    → IsAt pid es n i
    → lookup pid (take n es) ≡ some (get_or es i blank)
unfolding lookup
IsAt-lookup (here same) = rw same
IsAt-lookup (there other at) = rw other (IsAt-lookup at)

pub IsAt-update :
    {pid : ℕ} {es : List AppVolumeInfo} {n i : ℕ} (f : AppVolumeInfo → AppVolumeInfo)
    → IsAt pid es n i
    → take n (set es i (f (get_or es i blank))) ≡ update pid f (take n es)
unfolding update
IsAt-update f (here same) = rw same
IsAt-update f (there {e = e} other at) = rw other (ap (λ t. e ∷ t) (IsAt-update f at))

shift_first :
    (es : List AppVolumeInfo) (e : AppVolumeInfo) (n : ℕ)
    → n ≤ length es
    → take n (shift_loop (e ∷ es) n 0) ≡ take n es
unfolding shift_loop
shift_first es e zero fits = refl
shift_first [] e (suc n) fits = absurd (omega arith)
shift_first (x ∷ es) e (suc n) fits =
    ap (take (suc n)) (shift_loop_tail x (x ∷ es) n 0)
    ∙ ap (λ t. x ∷ t) (shift_first es x n (omega arith))

sub_zero : (m : ℕ) → m - 0 ≡ m
sub_zero m = omega arith

sub_suc : (m i : ℕ) → suc m - suc i ≡ m - i
sub_suc m i = omega arith

shift_suc :
    {pid : ℕ} {es : List AppVolumeInfo} {m i : ℕ}
    → suc m ≤ length es
    → IsAt pid es (suc m) i
    → take m (shift_loop es (m - i) i) ≡ remove pid (take (suc m) es)
unfolding remove
shift_suc {m = m} fits (here {e = e} {es = es} same) =
    rw (same, sub_zero m) (shift_first es e m (omega arith))
shift_suc {m = zero} fits (there other at) = absurd (omega (arith, IsAt-bound at))
shift_suc {m = suc m} fits (there {e = e} {es = es} {i = i} other at) =
    rw (other, sub_suc m i, shift_loop_tail e es (m - i) i)
      (ap (λ t. e ∷ t) (shift_suc (omega arith) at))

pred_suc : (m : ℕ) → suc m - 1 ≡ m
pred_suc m = omega arith

pub IsAt-shift :
    {pid : ℕ} {es : List AppVolumeInfo} {n i : ℕ}
    → n ≤ length es
    → IsAt pid es n i
    → take (n - 1) (shift_loop es (n - 1 - i) i) ≡ remove pid (take n es)
IsAt-shift {n = zero} fits at = absurd (omega (arith, IsAt-bound at))
IsAt-shift {n = suc m} fits at = rw (pred_suc m) (shift_suc fits at)

pub active_loop_lem :
    (es : List AppVolumeInfo) (n : ℕ) → n ≤ length es → active_loop es n 0 ≡ active (take n es)
unfolding active_loop active
active_loop_lem es zero fits = refl
active_loop_lem [] (suc n) fits = absurd (omega arith)
active_loop_lem (e ∷ es) (suc n) fits =
    ground (arith, active_loop_tail e es n 0, active_loop_lem es n)

-- A write behind the entries in use, or right behind them.
pub take-set_behind :
    (es : List AppVolumeInfo) (n i : ℕ) (e : AppVolumeInfo)
    → n ≤ i
    → take n (set es i e) ≡ take n es
take-set_behind [] n i e h = refl
take-set_behind (x ∷ es) zero i e h = refl
take-set_behind (x ∷ es) (suc n) zero e h = absurd (omega arith)
take-set_behind (x ∷ es) (suc n) (suc i) e h =
    ap (λ t. x ∷ t) (take-set_behind es n i e (omega arith))

pub take-set_next :
    (es : List AppVolumeInfo) (n : ℕ) (e : AppVolumeInfo)
    → n < length es
    → take (suc n) (set es n e) ≡ take n es ++ (e ∷ [])
take-set_next [] n e h = absurd (omega arith)
take-set_next (x ∷ es) zero e h = refl
take-set_next (x ∷ es) (suc n) e h = ap (λ t. x ∷ t) (take-set_next es n e (omega arith))

pub length-shift_loop : (es : List AppVolumeInfo) (n j : ℕ) → length (shift_loop es n j) ≡ length es
unfolding shift_loop
length-shift_loop es zero j = refl
length-shift_loop es (suc n) j =
    length-shift_loop (set es j (get_or es (suc j) blank)) n (suc j)
    ∙ length-set es j (get_or es (suc j) blank)
