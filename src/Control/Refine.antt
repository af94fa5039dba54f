-- ===== src/Control/Refine.antt =====
-- The application volumes (src/app_volume_control.c) against a list of at most 64 entries.
use audioctl.Base.{
  ℕ, ◌≡◌, refl, ap, ◌∙◌, Bool, true, false, not, none, some, List, [], ◌∷◌, length, ◌==◌,
  if◌then◌else◌, Option-cases, inl, inr, arith, length-replicate,
}
use mathlib.Core.Path.{ap₂}
use audioctl.Base.Status.{no_err, mem_full_error}
use audioctl.Ipc.Registry.{clamp_volume}
use audioctl.Ipc.Client.Requests.{ipc_client_set_app_volume, ipc_client_set_app_mute}
use audioctl.Control.{
  Control, app_volume_set, app_volume_set_mute, app_volume_set_active, app_volume_get,
  app_volume_get_mute, app_volume_get_all, app_volume_find, app_volume_get_active_count,
  app_volume_control_init,
}
use audioctl.Control.Array.{AppVolumeInfo, blank, max_entries, find_entry_unlocked, empty_list}
use audioctl.Control.Entries.{IsDistinct, lookup, active}
use audioctl.Control.Loops.{IsAt-lookup, active_loop_lem}
use audioctl.Control.Invariant.{live, IsValid, found_none, find_entry-IsAt}
use audioctl.Control.Spec.{
  Call, set_volume, set_mute, set_active, register, unregister, get_volume, get_mute, get_all, find,
  active_count, Answer, status, apps, entry, count, operate, answer, after,
}
use audioctl.Control.Writes.{
  change_agrees, sent_change_agrees, full_length, app_volume_register-Agrees,
  app_volume_unregister-Agrees,
}

-- What the queries find.
find_agrees :
    (g : Control) (pid : ℕ)
    → IsValid g.volumes
    → app_volume_find g pid ≡ lookup pid (live g.volumes)
unfolding app_volume_find
find_agrees g pid v = elim (Option-cases (find_entry_unlocked g.volumes pid)) [
  | inl missing ↦ ground (arith, found_none g.volumes pid v missing)
  | inr (i, found) ↦ ground (arith, IsAt-lookup (find_entry-IsAt g.volumes pid v found))
]

get_agrees :
    (g : Control) (pid : ℕ)
    → IsValid g.volumes
    → ((operate (get_volume pid) g).0 ≡ answer (get_volume pid) (live g.volumes))
      × ((operate (get_mute pid) g).0 ≡ answer (get_mute pid) (live g.volumes))
unfolding app_volume_get app_volume_get_mute
get_agrees g pid v = elim (Option-cases (find_entry_unlocked g.volumes pid)) [
  | inl missing ↦ ground (arith, found_none g.volumes pid v missing)
  | inr (i, found) ↦ ground (arith, IsAt-lookup (find_entry-IsAt g.volumes pid v found))
]

-- The listing of a non-empty array.
apps_of : (es : List AppVolumeInfo) (allocated : Bool) → Answer
apps_of es allocated =
    if length es == 0
    then apps no_err none
    else if not allocated
    then apps mem_full_error none
    else apps no_err (some es)

apps_of_lem :
    (es : List AppVolumeInfo) (allocated : Bool)
    → apps_of es allocated ≡ answer (get_all allocated) es
unfolding apps_of
apps_of_lem [] allocated = refl
apps_of_lem (e ∷ es) true = ground arith
apps_of_lem (e ∷ es) false = ground arith

all_agrees :
    (g : Control) (allocated : Bool)
    → IsValid g.volumes
    → (operate (get_all allocated) g).0 ≡ answer (get_all allocated) (live g.volumes)
unfolding app_volume_get_all apps_of
all_agrees g allocated v =
    ground (arith, full_length g.volumes v) ∙ apps_of_lem (live g.volumes) allocated

count_agrees :
    (g : Control) → IsValid g.volumes → app_volume_get_active_count g ≡ active (live g.volumes)
unfolding app_volume_get_active_count
count_agrees g v =
    active_loop_lem g.volumes.entries g.volumes.count (omega (arith, v.slots, v.fits))

-- One call on a valid array: its answer is that of the list, the entries in use afterwards are those
-- of the list after the call, and the array stays valid, whatever the connection to the server
-- does.
pub operate_refines :
    (call : Call) (g : Control)
    → IsValid g.volumes
    → let (result, g') = operate call g in
      (result ≡ answer call (live g.volumes))
      × (live g'.volumes ≡ after call (live g.volumes))
      × IsValid g'.volumes
unfolding app_volume_set app_volume_set_mute app_volume_set_active
operate_refines (set_volume pid loudness link) g v =
    let (s, now, valid) =
      sent_change_agrees g pid (λ e. record e { volume = clamp_volume loudness }) link
        (λ ctx. ipc_client_set_app_volume ctx pid (clamp_volume loudness) link.request) v
        (λ e. refl) in
    (ap status s, now, valid)
operate_refines (set_mute pid muted link) g v =
    let (s, now, valid) =
      sent_change_agrees g pid (λ e. record e { is_muted = muted }) link
        (λ ctx. ipc_client_set_app_mute ctx pid muted link.request) v (λ e. refl) in
    (ap status s, now, valid)
operate_refines (set_active pid on) g v =
    let (s, now, valid) =
      change_agrees g pid (λ e. record e { is_active = on }) (λ g'. g') v (λ e. refl)
        (λ g'. refl) in
    (ap status s, now, valid)
operate_refines (register pid bundle_id name link) g v =
    app_volume_register-Agrees g pid bundle_id name link v
operate_refines (unregister pid link) g v = app_volume_unregister-Agrees g pid link v
operate_refines (get_volume pid) g v = ((get_agrees g pid v).0, refl, v)
operate_refines (get_mute pid) g v = ((get_agrees g pid v).1, refl, v)
operate_refines (get_all allocated) g v = (all_agrees g allocated v, refl, v)
operate_refines (find pid) g v = (ap entry (find_agrees g pid v), refl, v)
operate_refines active_count g v = (ap count (count_agrees g v), refl, v)

-- Calls made one after the other.
pub run : List Call → Control → List Answer
run [] g = []
run (call ∷ calls) g = let (result, g') = operate call g in result ∷ run calls g'

unfoldable pub answers : List Call → List AppVolumeInfo → List Answer
answers [] es = []
answers (call ∷ calls) es = answer call es ∷ answers calls (after call es)

run_agrees :
    (calls : List Call) (g : Control)
    → IsValid g.volumes
    → run calls g ≡ answers calls (live g.volumes)
unfolding run answers
run_agrees [] g v = refl
run_agrees (call ∷ calls) g v =
    let (result, now, valid) = operate_refines call g v in
    ap₂ ◌∷◌ result (run_agrees calls (operate call g).1 valid ∙ ap (answers calls) now)

pub empty_list-IsValid : IsValid empty_list
unfolding IsDistinct
empty_list-IsValid = record {
  slots = length-replicate max_entries blank;
  fits = omega arith;
  distinct = tt;
}

-- After `app_volume_control_init` on variables that are not initialized, no sequence of calls tells
-- the array from a list that begins empty, whatever the connection to the server does.
pub run_from_init :
    (calls : List Call) (g : Control)
    → g.initialized ≡ false
    → run calls (app_volume_control_init g) ≡ answers calls []
unfolding app_volume_control_init
run_from_init calls g fresh =
    ap (λ b. run calls (if b then g else record g { volumes = empty_list; initialized = true }))
      fresh
    ∙ run_agrees calls (record g { volumes = empty_list; initialized = true }) empty_list-IsValid
