-- ===== src/Control/Array.antt =====
-- The array `AppVolumeList` of src/app_volume_control.c and the loops over it, by index.
use audioctl.Base.{
  ℕ, zero, suc, ◌+◌, ◌-◌, Bool, true, false, Option, none, some, List, get_or, set, replicate, ◌==◌,
  leb, if◌then◌else◌,
}
use audioctl.Base.Float.{Float32, f_zero, f_one}
use audioctl.Base.Bytes.{Bytes}

-- The two strings are their arrays of 256 bytes.
pub record AppVolumeInfo : Type 0 where
  pub pid : ℕ
  pub bundle_id : Bytes
  pub name : Bytes
  pub volume : Float32
  pub is_muted : Bool
  pub is_active : Bool
  pub device_id : ℕ

abbrev pub max_entries : ℕ
max_entries = 64

pub record AppVolumeList : Type 0 where
  pub entries : List AppVolumeInfo
  pub count : ℕ

-- The bytes that `memset` leaves.
abbrev pub blank : AppVolumeInfo
blank = record {
  pid = 0;
  bundle_id = replicate 256 0;
  name = replicate 256 0;
  volume = f_zero;
  is_muted = false;
  is_active = false;
  device_id = 0;
}

abbrev pub empty_list : AppVolumeList
empty_list = record { entries = replicate max_entries blank; count = 0 }

-- The walk of `find_entry_unlocked`: `n` entries from index `i` on. The pointer is an index.
unfoldable pub find_loop : List AppVolumeInfo → ℕ → ℕ → ℕ → Option ℕ
find_loop es pid zero i = none
find_loop es pid (suc n) i =
    let rest = find_loop es pid n (suc i) in if (get_or es i blank).pid == pid then some i else rest

unfoldable pub find_entry_unlocked : AppVolumeList → ℕ → Option ℕ
find_entry_unlocked l pid = find_loop l.entries pid l.count 0

-- The entry that the pointer stands for, and a write through it.
abbrev pub entry_at : AppVolumeList → ℕ → AppVolumeInfo
entry_at l i = get_or l.entries i blank

abbrev pub write_at : AppVolumeList → ℕ → AppVolumeInfo → AppVolumeList
write_at l i e = record l { entries = set l.entries i e }

abbrev pub new_entry : ℕ → AppVolumeInfo
new_entry pid = record blank { pid = pid; volume = f_one; is_muted = false; is_active = true }

unfoldable pub find_or_create_entry : AppVolumeList → ℕ → Option ℕ × AppVolumeList
find_or_create_entry l pid = elim (find_entry_unlocked l pid) [
  | some i ↦ (some i, l)
  | none ↦
      if leb max_entries l.count
      then (none, l)
      else (some l.count, record (write_at l l.count (new_entry pid)) { count = l.count + 1 })
]

-- The inner loop of `app_volume_unregister`: `n` entries are moved down from index `j` on.
unfoldable pub shift_loop : List AppVolumeInfo → ℕ → ℕ → List AppVolumeInfo
shift_loop es zero j = es
shift_loop es (suc n) j = shift_loop (set es j (get_or es (suc j) blank)) n (suc j)

-- From the first entry of the process on.
unfoldable pub remove_at : AppVolumeList → ℕ → AppVolumeList
remove_at l i = record {
  entries = set (shift_loop l.entries (l.count - 1 - i) i) (l.count - 1) blank;
  count = l.count - 1;
}

-- The loop over `n` entries from index `i` on.
unfoldable pub active_loop : List AppVolumeInfo → ℕ → ℕ → ℕ
active_loop es zero i = 0
active_loop es (suc n) i =
    let rest = active_loop es n (suc i) in if (get_or es i blank).is_active then 1 + rest else rest
