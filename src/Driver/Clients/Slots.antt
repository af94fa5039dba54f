-- ===== src/Driver/Clients/Slots.antt =====
-- The loops over the table, slot by slot.
use audioctl.Base.{
  ℕ, zero, suc, ◌+◌, ◌≤◌, ◌≡◌, refl, ◌&&◌, none, some, List, [], ◌∷◌, length, take, replicate, ◌==◌,
  if◌then◌else◌, Option-cases, Bool-cases, inl, inr, arith,
}
use audioctl.Driver.Clients.{
  Slot, free_slot, update_slot, fill_slot, clear_slot, find_pid, pids_from,
}

-- The number of active slots.
unfoldable pub active_count : List Slot → ℕ
active_count [] = 0
active_count (c ∷ cs) = if c.active then suc (active_count cs) else active_count cs

-- No two active slots have one client id.
abbrev pub IsDistinct : List Slot → Type 0
IsDistinct [] = Unit
IsDistinct (c ∷ cs) = ((if c.active then find_pid cs c.client_id else none) ≡ none) × IsDistinct cs

pub active_count_bound : (cs : List Slot) → active_count cs ≤ length cs
unfolding active_count
active_count_bound [] = omega arith
active_count_bound (c ∷ cs) = ground (arith, active_count_bound cs)

-- What a loop that replaces one slot has done: who is found, how many there are.
pub update_slot_lem :
    (id pid : ℕ) (cs : List Slot) {rest : List Slot} (q : ℕ)
    → update_slot id pid cs ≡ some rest
    → (find_pid rest q ≡ (if id == q then some pid else find_pid cs q))
      × (active_count rest ≡ active_count cs)
      × (length rest ≡ length cs)
unfolding update_slot find_pid active_count
update_slot_lem id pid [] q e = cc
update_slot_lem id pid (c ∷ cs) q e = elim (Option-cases (update_slot id pid cs)) [
  | inl missing ↦ ground arith
  | inr (left, found) ↦ ground (arith, update_slot_lem id pid cs {rest = left} q found)
]

pub update_slot-none :
    (id pid : ℕ) (cs : List Slot) → update_slot id pid cs ≡ none → find_pid cs id ≡ none
unfolding update_slot find_pid
update_slot-none id pid [] e = refl
update_slot-none id pid (c ∷ cs) e = elim (Option-cases (update_slot id pid cs)) [
  | inl missing ↦ ground (arith, update_slot-none id pid cs missing)
  | inr (left, found) ↦ ground arith
]

pub fill_slot_lem :
    (id pid : ℕ) (cs : List Slot) {rest : List Slot} (q : ℕ)
    → find_pid cs id ≡ none
    → fill_slot id pid cs ≡ some rest
    → (find_pid rest q ≡ (if id == q then some pid else find_pid cs q))
      × (active_count rest ≡ suc (active_count cs))
      × (length rest ≡ length cs)
unfolding fill_slot find_pid active_count
fill_slot_lem id pid [] q h e = cc
fill_slot_lem id pid (c ∷ cs) q h e = elim (Option-cases (fill_slot id pid cs)) [
  | inl full ↦ ground arith
  | inr (left, found) ↦ ground (arith, fill_slot_lem id pid cs {rest = left} q)
]

pub fill_slot-none :
    (id pid : ℕ) (cs : List Slot) → fill_slot id pid cs ≡ none → active_count cs ≡ length cs
unfolding fill_slot active_count
fill_slot-none id pid [] e = refl
fill_slot-none id pid (c ∷ cs) e = elim (Option-cases (fill_slot id pid cs)) [
  | inl full ↦ ground (arith, fill_slot-none id pid cs full)
  | inr (left, found) ↦ ground arith
]

pub clear_slot_lem :
    (id : ℕ) (cs : List Slot) {pid : ℕ} {rest : List Slot} (q : ℕ)
    → IsDistinct cs
    → clear_slot id cs ≡ some (pid, rest)
    → (find_pid rest q ≡ (if id == q then none else find_pid cs q))
      × (find_pid cs id ≡ some pid)
      × (suc (active_count rest) ≡ active_count cs)
      × (length rest ≡ length cs)
unfolding clear_slot find_pid active_count
clear_slot_lem id [] q d e = cc
clear_slot_lem id (c ∷ cs) q d e = elim (Option-cases (clear_slot id cs)) [
  | inl missing ↦ ground (arith, d.0)
  | inr ((p, left), found) ↦
      ground (arith, d.0, clear_slot_lem id cs {pid = p} {rest = left} q d.1 found)
]

pub clear_slot-none : (id : ℕ) (cs : List Slot) → clear_slot id cs ≡ none → find_pid cs id ≡ none
unfolding clear_slot find_pid
clear_slot-none id [] e = refl
clear_slot-none id (c ∷ cs) e = elim (Option-cases (clear_slot id cs)) [
  | inl missing ↦ ground (arith, clear_slot-none id cs missing)
  | inr ((p, left), found) ↦ ground arith
]

pub update_slot-IsDistinct :
    (id pid : ℕ) (cs : List Slot) {rest : List Slot}
    → IsDistinct cs
    → update_slot id pid cs ≡ some rest
    → IsDistinct rest
unfolding update_slot
update_slot-IsDistinct id pid [] d e = cc
update_slot-IsDistinct id pid (c ∷ cs) d e = elim (Option-cases (update_slot id pid cs)) [
  | inl missing ↦ ground (arith, d.0)
  | inr (left, found) ↦ ground (
    arith,
    d.0,
    update_slot_lem id pid cs {rest = left} c.client_id found,
    update_slot-IsDistinct id pid cs {rest = left} d.1 found,
  )
]

pub fill_slot-IsDistinct :
    (id pid : ℕ) (cs : List Slot) {rest : List Slot}
    → IsDistinct cs
    → find_pid cs id ≡ none
    → fill_slot id pid cs ≡ some rest
    → IsDistinct rest
unfolding fill_slot find_pid
fill_slot-IsDistinct id pid [] d h e = cc
fill_slot-IsDistinct id pid (c ∷ cs) d h e = elim (Option-cases (fill_slot id pid cs)) [
  | inl full ↦ ground (arith, d.0)
  | inr (left, found) ↦ ground (
    arith,
    d.0,
    fill_slot_lem id pid cs {rest = left} c.client_id,
    fill_slot-IsDistinct id pid cs {rest = left} d.1,
  )
]

pub clear_slot-IsDistinct :
    (id : ℕ) (cs : List Slot) {pid : ℕ} {rest : List Slot}
    → IsDistinct cs
    → clear_slot id cs ≡ some (pid, rest)
    → IsDistinct rest
unfolding clear_slot
clear_slot-IsDistinct id [] d e = cc
clear_slot-IsDistinct id (c ∷ cs) d e = elim (Option-cases (clear_slot id cs)) [
  | inl missing ↦ ground (arith, d.0)
  | inr ((p, left), found) ↦ ground (
    arith,
    d.0,
    clear_slot_lem id cs {pid = p} {rest = left} c.client_id d.1 found,
    clear_slot-IsDistinct id cs {pid = p} {rest = left} d.1 found,
  )
]

-- The process ids of the active slots, in the order of the table.
unfoldable pub active_pids : List Slot → List ℕ
active_pids [] = []
active_pids (c ∷ cs) = if c.active then c.pid ∷ active_pids cs else active_pids cs

pids_from-take :
    (n m count : ℕ) (cs : List Slot)
    → m ≡ n + count
    → pids_from m count cs ≡ take n (active_pids cs)
unfolding pids_from active_pids
pids_from-take zero m count [] h = refl
pids_from-take (suc n) m count [] h = refl
pids_from-take zero m count (c ∷ cs) h = ground arith
pids_from-take (suc n) m count (c ∷ cs) h =
    ground
      (arith, pids_from-take n m (count + 1) cs (omega arith), pids_from-take (suc n) m count cs h)

pub pids_from_lem :
    (max_count : ℕ) (cs : List Slot) → pids_from max_count 0 cs ≡ take max_count (active_pids cs)
pids_from_lem max_count cs = pids_from-take max_count max_count 0 cs (omega arith)

pub length-active_pids : (cs : List Slot) → length (active_pids cs) ≡ active_count cs
unfolding active_pids active_count
length-active_pids [] = refl
length-active_pids (c ∷ cs) = ground (arith, length-active_pids cs)

pub update_slot_found :
    (id pid : ℕ) (cs : List Slot) {rest : List Slot}
    → update_slot id pid cs ≡ some rest
    → (old : ℕ) × (find_pid cs id ≡ some old)
unfolding update_slot find_pid
update_slot_found id pid [] e = cc
update_slot_found id pid (c ∷ cs) e = elim (Bool-cases (c.active && c.client_id == id)) [
  | inl here ↦ (c.pid, rw here)
  | inr other ↦ elim (Option-cases (update_slot id pid cs)) [
    | inl missing ↦ cc
    | inr (left, found) ↦
        let (old, there) = update_slot_found id pid cs found in (old, rw (other, there))
  ]
]

-- A table of free slots.
pub free_slots :
    (n q : ℕ)
    → (find_pid (replicate n free_slot) q ≡ none)
      × (active_count (replicate n free_slot) ≡ 0)
      × IsDistinct (replicate n free_slot)
unfolding find_pid active_count replicate
free_slots zero q = (refl, refl, tt)
free_slots (suc n) q =
    let (unknown, none_active, distinct) = free_slots n q in
    (unknown, none_active, (refl, distinct))
