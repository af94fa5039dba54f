-- ===== src/Control/Writes.antt =====
-- The calls that change the array of application volumes, on every branch.
use audioctl.Base.{
  ℕ, ◌+◌, ◌<◌, ◌≡◌, refl, ap, ◌∙◌, Bool, false, Option, none, some, length, leb, Option-cases, inl,
  inr, arith, Bool-cases, set-set, get_or-set_self, length-take,
}
use audioctl.Base.Bytes.{Bytes}
use audioctl.Base.Status.{no_err}
use audioctl.Ipc.Client.{ClientContext}
use audioctl.Ipc.Client.Requests.{ipc_client_register_app, ipc_client_unregister_app}
use audioctl.Control.{
  Control, Link, described, app_name, register_at, synced, change_entry,
  ensure_ipc_client_connected, app_volume_register, app_volume_unregister,
}
use audioctl.Control.Array.{
  AppVolumeInfo, AppVolumeList, blank, max_entries, new_entry, entry_at, write_at,
  find_entry_unlocked, find_or_create_entry, remove_at,
}
use audioctl.Control.Entries.{update, update-none, remove-none}
use audioctl.Control.Loops.{IsAt-lookup}
use audioctl.Control.Invariant.{
  live, IsValid, found_none, find_entry-IsAt, write_at_lem, add_lem, remove_at_lem,
}
use audioctl.Control.Spec.{Call, register, unregister, changed, operate, if_there, answer, after}

-- A call keeps the promise of the list.
abbrev pub Agrees : Call → Control → Type 0
Agrees call g =
    let (result, g') = operate call g in
    (result ≡ answer call (live g.volumes))
    × (live g'.volumes ≡ after call (live g.volumes))
    × IsValid g'.volumes

pub synced_volumes :
    (g : Control) (link : Link) (send : ClientContext → Bool × ClientContext)
    → (synced g link send).volumes ≡ g.volumes
unfolding ensure_ipc_client_connected
synced_volumes g link send = ground arith

-- A call that changes an entry.
pub change_agrees :
    (g : Control) (pid : ℕ) (f : AppVolumeInfo → AppVolumeInfo) (sync : Control → Control)
    → IsValid g.volumes
    → ((e : AppVolumeInfo) → (f e).pid ≡ e.pid)
    → ((g' : Control) → (sync g').volumes ≡ g'.volumes)
    → let (s, g') = change_entry g pid f sync in
      (s ≡ if_there no_err pid (live g.volumes))
      × (live g'.volumes ≡ update pid f (live g.volumes))
      × IsValid g'.volumes
change_agrees g pid f sync v keeps same = elim (Option-cases (find_entry_unlocked g.volumes pid)) [
  | inl missing ↦
      let nothing = found_none g.volumes pid v missing in
      ground (arith, nothing, update-none pid f (live g.volumes) nothing)
  | inr (i, found) ↦
      let at = find_entry-IsAt g.volumes pid v found in
      let (now, valid) = write_at_lem g.volumes pid f v keeps at in
      ground (
        arith,
        IsAt-lookup at,
        same (record g { volumes = write_at g.volumes i (f (entry_at g.volumes i)) }),
        now,
        valid,
      )
]

-- The same with a request to the server.
pub sent_change_agrees :
    (g : Control) (pid : ℕ) (f : AppVolumeInfo → AppVolumeInfo) (link : Link)
    (send : ClientContext → Bool × ClientContext)
    → IsValid g.volumes
    → ((e : AppVolumeInfo) → (f e).pid ≡ e.pid)
    → let (s, g') = change_entry g pid f (λ g'. synced g' link send) in
      (s ≡ if_there no_err pid (live g.volumes))
      × (live g'.volumes ≡ update pid f (live g.volumes))
      × IsValid g'.volumes
sent_change_agrees g pid f link send v keeps =
    change_agrees g pid f (λ g'. synced g' link send) v keeps (λ g'. synced_volumes g' link send)

pub full_length : (l : AppVolumeList) → IsValid l → length (live l) ≡ l.count
full_length l v = omega (arith, length-take l.count l.entries, v.slots, v.fits)

-- The request that a registration sends.
abbrev told :
    ℕ → Option Bytes → Option Bytes → Link → AppVolumeInfo → ClientContext → Bool × ClientContext
told pid bundle_id name link e ctx =
    ipc_client_register_app ctx pid (app_name bundle_id name) e.volume e.is_muted link.allocated
      link.request

abbrev grown : AppVolumeList → AppVolumeInfo → AppVolumeList
grown l e = record (write_at l l.count e) { count = l.count + 1 }

-- The new entry is written twice.
created :
    (l : AppVolumeList) (pid : ℕ)
    → find_entry_unlocked l pid ≡ none
    → leb max_entries l.count ≡ false
    → find_or_create_entry l pid ≡ (some l.count, grown l (new_entry pid))
unfolding find_or_create_entry
created l pid missing room = ground arith

register_new :
    (g : Control) (pid : ℕ) (bundle_id name : Option Bytes) (link : Link)
    → find_entry_unlocked g.volumes pid ≡ none
    → leb max_entries g.volumes.count ≡ false
    → g.volumes.count < length g.volumes.entries
    → let e = described bundle_id name (new_entry pid) in
      app_volume_register g pid bundle_id name link ≡ (
        no_err,
        synced (record g { volumes = grown g.volumes e }) link (told pid bundle_id name link e),
      )
unfolding app_volume_register
register_new g pid bundle_id name link missing room inside =
    ap (register_at g pid bundle_id name link) (created g.volumes pid missing room)
    ∙ rw
        (
          get_or-set_self g.volumes.entries g.volumes.count (new_entry pid) blank inside,
          set-set g.volumes.entries g.volumes.count (new_entry pid)
              (described bundle_id name (new_entry pid)),
        )
        refl

pub app_volume_register-Agrees :
    (g : Control) (pid : ℕ) (bundle_id name : Option Bytes) (link : Link)
    → IsValid g.volumes
    → Agrees (register pid bundle_id name link) g
unfolding app_volume_register find_or_create_entry
app_volume_register-Agrees g pid bundle_id name link v =
    elim (Option-cases (find_entry_unlocked g.volumes pid)) [
      | inl missing ↦ elim (Bool-cases (leb max_entries g.volumes.count)) [
        | inl full ↦ ground (arith, found_none g.volumes pid v missing, full_length g.volumes v)
        | inr room ↦
            let nothing = found_none g.volumes pid v missing in
            let e = described bundle_id name (new_entry pid) in
            let (now, valid) = add_lem g.volumes e v (ground arith) nothing in
            rw
              (
                register_new g pid bundle_id name link missing room (ground (arith, v.slots)),
                changed,
                after,
                synced_volumes (record g { volumes = grown g.volumes e }) link
                    (told pid bundle_id name link e),
                nothing,
                full_length g.volumes v,
                room,
              )
              (refl, now, valid)
      ]
      | inr (i, found) ↦
          let at = find_entry-IsAt g.volumes pid v found in
          let e = described bundle_id name (entry_at g.volumes i) in
          let (now, valid) =
            write_at_lem g.volumes pid (described bundle_id name) v (λ e. refl) at in
          ground (
            arith,
            IsAt-lookup at,
            synced_volumes (record g { volumes = write_at g.volumes i e }) link
                (told pid bundle_id name link e),
            now,
            valid,
          )
    ]

pub app_volume_unregister-Agrees :
    (g : Control) (pid : ℕ) (link : Link) → IsValid g.volumes → Agrees (unregister pid link) g
unfolding app_volume_unregister
app_volume_unregister-Agrees g pid link v =
    elim (Option-cases (find_entry_unlocked g.volumes pid)) [
      | inl missing ↦
          let nothing = found_none g.volumes pid v missing in
          ground (arith, nothing, remove-none pid (live g.volumes) nothing)
      | inr (i, found) ↦
          let at = find_entry-IsAt g.volumes pid v found in
          let (now, valid) = remove_at_lem g.volumes pid v at in
          ground (
            arith,
            IsAt-lookup at,
            synced_volumes (record g { volumes = remove_at g.volumes i }) link
                (λ ctx. ipc_client_unregister_app ctx pid link.request),
            now,
            valid,
          )
    ]
