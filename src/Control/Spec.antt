-- ===== src/Control/Spec.antt =====
-- The calls of src/app_volume_control.c, and what they promise of a list of at most 64 entries.
use audioctl.Base.{
  ℕ, Bool, true, Option, none, some, List, [], ◌∷◌, ◌++◌, length, leb, if◌then◌else◌,
}
use audioctl.Base.Float.{Float32}
use audioctl.Base.Bytes.{Bytes}
use audioctl.Base.Status.{OsStatus, no_err, minus_one, mem_full_error}
use audioctl.Ipc.Registry.{clamp_volume}
use audioctl.Control.{
  Control, Link, described, app_volume_set, app_volume_set_mute, app_volume_set_active,
  app_volume_get, app_volume_get_mute, app_volume_register, app_volume_unregister,
  app_volume_get_all, app_volume_find, app_volume_get_active_count,
}
use audioctl.Control.Array.{AppVolumeInfo, max_entries, new_entry}
use audioctl.Control.Entries.{lookup, update, remove, active}

-- A call of the module, with what the connection to the server answers to it.
pub data Call : Type 0 where
  set_volume : ℕ → Float32 → Link → Call
  set_mute : ℕ → Bool → Link → Call
  set_active : ℕ → Bool → Call
  register : ℕ → Option Bytes → Option Bytes → Link → Call
  unregister : ℕ → Link → Call
  get_volume : ℕ → Call
  get_mute : ℕ → Call
  get_all : Bool → Call
  find : ℕ → Call
  active_count : Call

pub data Answer : Type 0 where
  status : OsStatus → Answer
  volume : OsStatus → Option Float32 → Answer
  mute : OsStatus → Option Bool → Answer
  apps : OsStatus → Option (List AppVolumeInfo) → Answer
  entry : Option AppVolumeInfo → Answer
  count : ℕ → Answer

abbrev pub changed : OsStatus × Control → Answer × Control
changed (s, g) = (status s, g)

-- The pointers for the results are given.
abbrev pub operate : Call → Control → Answer × Control
operate (set_volume pid v link) g = changed (app_volume_set g pid v link)
operate (set_mute pid m link) g = changed (app_volume_set_mute g pid m link)
operate (set_active pid a) g = changed (app_volume_set_active g pid a)
operate (register pid bundle_id name link) g =
    changed (app_volume_register g pid bundle_id name link)
operate (unregister pid link) g = changed (app_volume_unregister g pid link)
operate (get_volume pid) g = (let (s, v) = app_volume_get g pid true in volume s v, g)
operate (get_mute pid) g = (let (s, m) = app_volume_get_mute g pid true in mute s m, g)
operate (get_all allocated) g = (let (s, es) = app_volume_get_all g true allocated in apps s es, g)
operate (find pid) g = (entry (app_volume_find g pid), g)
operate active_count g = (count (app_volume_get_active_count g), g)

-- The list: an entry that is there is found, changed or removed, a new one goes to the end unless
-- there are 64.
abbrev pub if_there : OsStatus → ℕ → List AppVolumeInfo → OsStatus
if_there s pid es = elim (lookup pid es) [ none ↦ minus_one | some _ ↦ s ]

abbrev pub is_full : List AppVolumeInfo → Bool
is_full es = leb max_entries (length es)

abbrev pub answer : Call → List AppVolumeInfo → Answer
answer (set_volume pid v link) es = status (if_there no_err pid es)
answer (set_mute pid m link) es = status (if_there no_err pid es)
answer (set_active pid a) es = status (if_there no_err pid es)
answer (register pid bundle_id name link) es =
    status
      (elim (lookup pid es) [ some _ ↦ no_err | none ↦ if is_full es then minus_one else no_err ])
answer (unregister pid link) es = status (if_there no_err pid es)
answer (get_volume pid) es = elim (lookup pid es) [
  | none ↦ volume minus_one none
  | some e ↦ volume no_err (some e.volume)
]
answer (get_mute pid) es = elim (lookup pid es) [
  | none ↦ mute minus_one none
  | some e ↦ mute no_err (some e.is_muted)
]
answer (get_all allocated) [] = apps no_err none
answer (get_all allocated) (e ∷ es) =
    if allocated then apps no_err (some (e ∷ es)) else apps mem_full_error none
answer (find pid) es = entry (lookup pid es)
answer active_count es = count (active es)

abbrev pub after : Call → List AppVolumeInfo → List AppVolumeInfo
after (set_volume pid v link) es = update pid (λ e. record e { volume = clamp_volume v }) es
after (set_mute pid m link) es = update pid (λ e. record e { is_muted = m }) es
after (set_active pid a) es = update pid (λ e. record e { is_active = a }) es
after (register pid bundle_id name link) es = elim (lookup pid es) [
  | some _ ↦ update pid (described bundle_id name) es
  | none ↦ if is_full es then es else es ++ (described bundle_id name (new_entry pid) ∷ [])
]
after (unregister pid link) es = remove pid es
after _ es = es
