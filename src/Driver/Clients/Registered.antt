-- ===== src/Driver/Clients/Registered.antt =====
-- The table of clients as a directory of at most 64 entries.
use audioctl.Base.{
  ℕ, ◌+◌, ◌-◌, ◌≡◌, ap, Bool, not, Option, none, some, length, take, min, length-take,
  length-replicate, ◌==◌, ltb, if◌then◌else◌, Option-cases, inl, inr, arith, sym, ◌∙◌,
}
use audioctl.Base.Bytes.{Bytes}
use audioctl.Base.Status.{OsStatus, no_err, bad_device_error}
use audioctl.Ipc.Client.{Attempt, Exchange}
use audioctl.Driver.Clients.{
  free_slot, max_clients, Driver, update_slot, fill_slot, clear_slot, find_pid,
  app_volume_driver_init, app_volume_driver_cleanup, app_volume_driver_add_client,
  app_volume_driver_remove_client, app_volume_driver_get_client_pids,
}
use audioctl.Driver.Clients.Slots.{
  active_count, IsDistinct, active_count_bound, update_slot_lem, update_slot-none, fill_slot_lem,
  fill_slot-none, clear_slot_lem, clear_slot-none, update_slot-IsDistinct, fill_slot-IsDistinct,
  clear_slot-IsDistinct, active_pids, pids_from_lem, length-active_pids, update_slot_found,
  free_slots,
}

-- The table has 64 slots, no client stands in two of them, and the counter counts the active ones.
pub record IsValid (g : Driver) : Type 0 where
  pub slots : length g.clients ≡ max_clients
  pub distinct : IsDistinct g.clients
  pub counted : g.client_count ≡ active_count g.clients

-- A call to add or to remove a client, with what the socket answers to it.
pub data Change : Type 0 where
  add : ℕ → ℕ → Option Bytes → Option Bytes → Bool → Exchange → Change
  remove : ℕ → Exchange → Change

abbrev pub apply : Change → Driver → OsStatus × Driver
apply (add id pid bundle_id name allocated x) g =
    app_volume_driver_add_client g id pid bundle_id name allocated x
apply (remove id x) g = app_volume_driver_remove_client g id x

-- The directory: the process of each client, and how many clients there are.
pub record Directory : Type 0 where
  pub process : ℕ → Option ℕ
  pub size : ℕ

abbrev pub directory_of : Driver → Directory
directory_of g = record { process = find_pid g.clients; size = g.client_count }

-- A client that is there gets the new process; a new one is refused when there are 64.
abbrev pub answer : Change → Directory → OsStatus
answer (add id pid bundle_id name allocated x) m = elim (m.process id) [
  | some _ ↦ no_err
  | none ↦ if ltb m.size max_clients then no_err else bad_device_error
]
answer (remove id x) m = elim (m.process id) [ some _ ↦ no_err | none ↦ bad_device_error ]

abbrev pub size_after : Change → Directory → ℕ
size_after (add id pid bundle_id name allocated x) m = elim (m.process id) [
  | some _ ↦ m.size
  | none ↦ if ltb m.size max_clients then m.size + 1 else m.size
]
size_after (remove id x) m = elim (m.process id) [ some _ ↦ m.size - 1 | none ↦ m.size ]

abbrev pub process_after : Change → Directory → ℕ → Option ℕ
process_after (add id pid bundle_id name allocated x) m q = elim (m.process id) [
  | some _ ↦ if id == q then some pid else m.process q
  | none ↦
      if ltb m.size max_clients then (if id == q then some pid else m.process q) else m.process q
]
process_after (remove id x) m q = if id == q then none else m.process q

-- One change of a valid table gives the status, the processes and the size of the directory, and
-- leaves the table valid.
pub change_refines :
    (change : Change) (g : Driver) (q : ℕ)
    → IsValid g
    → let (status, g') = apply change g in
      (status ≡ answer change (directory_of g))
      × (find_pid g'.clients q ≡ process_after change (directory_of g) q)
      × (g'.client_count ≡ size_after change (directory_of g))
      × IsValid g'
unfolding app_volume_driver_add_client app_volume_driver_remove_client
change_refines (add id pid bundle_id name allocated x) g q v =
    elim (Option-cases (update_slot id pid g.clients)) [
      | inl missing ↦ elim (Option-cases (fill_slot id pid g.clients)) [
        | inl full ↦
            ground (
              arith,
              update_slot-none id pid g.clients missing,
              fill_slot-none id pid g.clients full,
            )
        | inr (cs, filled) ↦ ground (
          arith,
          active_count_bound cs,
          update_slot-none id pid g.clients missing,
          fill_slot_lem id pid g.clients {rest = cs} q (update_slot-none id pid g.clients missing)
              filled,
          fill_slot-IsDistinct id pid g.clients {rest = cs} v.distinct
              (update_slot-none id pid g.clients missing) filled,
        )
      ]
      | inr (cs, found) ↦
          (let (old, there) = update_slot_found id pid g.clients found in
            ground (
              arith,
              there,
              update_slot_lem id pid g.clients {rest = cs} q found,
              update_slot-IsDistinct id pid g.clients {rest = cs} v.distinct found,
            ))
    ]
change_refines (remove id x) g q v = elim (Option-cases (clear_slot id g.clients)) [
  | inl missing ↦ ground (arith, clear_slot-none id g.clients missing)
  | inr ((pid, cs), found) ↦ ground (
    arith,
    active_count_bound g.clients,
    clear_slot_lem id g.clients {pid = pid} {rest = cs} q v.distinct found,
    clear_slot-IsDistinct id g.clients {pid = pid} {rest = cs} v.distinct found,
  )
]

-- In a valid table `app_volume_driver_get_client_pids` puts out the processes of the active clients
-- in the order of their slots, cut off at the room that the caller has: never more than it, and
-- never more than the clients counted.
pub get_client_pids_lem :
    (g : Driver) (max_count : ℕ)
    → IsValid g
    → (app_volume_driver_get_client_pids g max_count ≡ take max_count (active_pids g.clients))
      × (length (app_volume_driver_get_client_pids g max_count) ≡ min max_count g.client_count)
unfolding app_volume_driver_get_client_pids
get_client_pids_lem g max_count v = (
  pids_from_lem max_count g.clients,
  ap length (pids_from_lem max_count g.clients)
      ∙ length-take max_count (active_pids g.clients)
      ∙ ap (min max_count) (length-active_pids g.clients ∙ sym v.counted),
)

-- Initialising a driver that is not initialised, and cleaning up one that is, leaves a valid table
-- in which no client is found.
pub init_cleanup-IsValid :
    (g : Driver) (attempt : Attempt) (q : ℕ)
    → let g' =
        if g.initialized then app_volume_driver_cleanup g else app_volume_driver_init g attempt in
      IsValid g'
      × (find_pid g'.clients q ≡ none)
      × (g'.client_count ≡ 0)
      × (g'.initialized ≡ not g.initialized)
unfolding app_volume_driver_init app_volume_driver_cleanup
init_cleanup-IsValid g attempt q =
    ground (arith, free_slots max_clients q, length-replicate max_clients free_slot)
