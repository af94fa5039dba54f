-- ===== src/Control/Invariant.antt =====
-- The entries in use of the array (src/app_volume_control.c), and what each write to it does to them.
use audioctl.Base.{
  ℕ, suc, ◌+◌, ◌-◌, ◌≤◌, ◌<◌, ◌≡◌, ◌∙◌, sym, none, some, List, [], ◌∷◌, ◌++◌, set, take, length,
  arith, length-set,
}
use mathlib.Core.Path.{subst}
use audioctl.Control.Array.{
  AppVolumeInfo, AppVolumeList, blank, max_entries, entry_at, write_at, find_entry_unlocked,
  remove_at, shift_loop,
}
use audioctl.Control.Entries.{
  lookup, update, remove, IsDistinct, update-IsDistinct, remove-IsDistinct, append-IsDistinct,
}
use audioctl.Control.Loops.{
  IsAt, find_loop-none, find_loop-IsAt, IsAt-update, IsAt-shift, take-set_behind, take-set_next,
  length-shift_loop,
}

-- The entries in use.
abbrev pub live : AppVolumeList → List AppVolumeInfo
live l = take l.count l.entries

pub record IsValid (l : AppVolumeList) : Type 0 where
  pub slots : length l.entries ≡ max_entries
  pub fits : l.count ≤ max_entries
  pub distinct : IsDistinct (live l)

-- What the two searches find, in a valid list.
pub found_none :
    (l : AppVolumeList) (pid : ℕ)
    → IsValid l
    → find_entry_unlocked l pid ≡ none
    → lookup pid (live l) ≡ none
unfolding find_entry_unlocked
found_none l pid v h = find_loop-none l.entries pid l.count (omega (arith, v.slots, v.fits)) h

pub find_entry-IsAt :
    (l : AppVolumeList) (pid : ℕ) {i : ℕ}
    → IsValid l
    → find_entry_unlocked l pid ≡ some i
    → IsAt pid l.entries l.count i
unfolding find_entry_unlocked
find_entry-IsAt l pid v h = find_loop-IsAt l.entries pid l.count (omega (arith, v.slots, v.fits)) h

-- A change of the entry that is found.
pub write_at_lem :
    (l : AppVolumeList) (pid : ℕ) (f : AppVolumeInfo → AppVolumeInfo) {i : ℕ}
    → IsValid l
    → ((e : AppVolumeInfo) → (f e).pid ≡ e.pid)
    → IsAt pid l.entries l.count i
    → let l' = write_at l i (f (entry_at l i)) in (live l' ≡ update pid f (live l)) × IsValid l'
write_at_lem l pid f {i} v keeps at = (
  IsAt-update f at,
  record {
    slots = length-set l.entries i (f (entry_at l i)) ∙ v.slots;
    fits = v.fits;
    distinct =
        subst IsDistinct (sym (IsAt-update f at))
          (update-IsDistinct pid f (live l) keeps v.distinct);
  },
)

add_one : (n : ℕ) → n + 1 ≡ suc n
add_one n = omega arith

-- A new entry behind those in use.
pub add_lem :
    (l : AppVolumeList) (e : AppVolumeInfo)
    → IsValid l
    → l.count < max_entries
    → lookup e.pid (live l) ≡ none
    → let l' = record (write_at l l.count e) { count = l.count + 1 } in
      (live l' ≡ live l ++ (e ∷ [])) × IsValid l'
add_lem l e v room new = (
  same,
  record {
    slots = length-set l.entries l.count e ∙ v.slots;
    fits = omega arith;
    distinct = subst IsDistinct (sym same) (append-IsDistinct (live l) e new v.distinct);
  },
)
  where
    same : take (l.count + 1) (set l.entries l.count e) ≡ live l ++ (e ∷ [])
    same = rw (add_one l.count) (take-set_next l.entries l.count e (omega (arith, v.slots)))

pub remove_at_lem :
    (l : AppVolumeList) (pid : ℕ) {i : ℕ}
    → IsValid l
    → IsAt pid l.entries l.count i
    → (live (remove_at l i) ≡ remove pid (live l)) × IsValid (remove_at l i)
unfolding remove_at
remove_at_lem l pid {i} v at = (
  same,
  record {
    slots =
        length-set (shift_loop l.entries (l.count - 1 - i) i) (l.count - 1) blank
        ∙ length-shift_loop l.entries (l.count - 1 - i) i
        ∙ v.slots;
    fits = omega (arith, v.fits);
    distinct = subst IsDistinct (sym same) (remove-IsDistinct pid (live l) v.distinct);
  },
)
  where
    same :
        take (l.count - 1) (set (shift_loop l.entries (l.count - 1 - i) i) (l.count - 1) blank)
        ≡ remove pid (live l)
    same =
        take-set_behind (shift_loop l.entries (l.count - 1 - i) i) (l.count - 1) (l.count - 1) blank
          (omega arith)
        ∙ IsAt-shift (omega (arith, v.slots, v.fits)) at
