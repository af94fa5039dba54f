-- ===== src/Paths.antt =====
-- The home directory of the user, the support directory, and the paths of the files in it
-- (src/constants.c). What the system tells of users, and the file system, are parameters.
pub mod Support
mod Examples
use audioctl.Base.{
  ℕ, ◌+◌, Bool, true, false, not, ◌&&◌, Option, none, some, List, [], ◌∷◌, ◌++◌, length, take, leb,
  if◌then◌else◌,
}
use audioctl.Base.Bytes.{Bytes, codes}
use audioctl.Cli.{same_string}

-- `PATH_MAX`
abbrev pub path_max : ℕ
path_max = 1024

-- The answers of the system: the name that `getlogin_r` gives, the home directory of a name (`none`
-- also if a buffer cannot be had), the variables SUDO_USER and HOME, and the home directory of the
-- user id.
pub record Accounts : Type 0 where
  pub login_name : Option Bytes
  pub home_of : Bytes → Option Bytes
  pub sudo_user : Option Bytes
  pub home_variable : Option Bytes
  pub own_home : Option Bytes

abbrev pub is_nonempty : Bytes → Bool
is_nonempty [] = false
is_nonempty (c ∷ s) = true

-- The name is there, and is not that of root.
unfoldable pub usable_name : Option Bytes → Option Bytes
usable_name none = none
usable_name (some name) =
    if is_nonempty name && not (same_string name (codes "root")) then some name else none

-- The first two ways: the home directory of a user by name, in a buffer of `PATH_MAX` bytes.
unfoldable pub named_home : Accounts → Option Bytes → Option Bytes
named_home a name = elim (usable_name name) [
  | none ↦ none
  | some user ↦ elim (a.home_of user) [ none ↦ none | some home ↦ some (take 1023 home) ]
]

abbrev pub or_else : Option Bytes → Option Bytes → Option Bytes
or_else (some x) other = some x
or_else none other = other

abbrev pub set_variable : Option Bytes → Option Bytes
set_variable none = none
set_variable (some text) = if is_nonempty text then some text else none

abbrev pub truncated : Option Bytes → Option Bytes
truncated none = none
truncated (some home) = some (take 1023 home)

unfoldable pub get_home_directory : Accounts → Option Bytes
get_home_directory a = or_else (named_home a a.login_name) (
    or_else (named_home a a.sudo_user)
      (or_else (set_variable a.home_variable) (truncated a.own_home)))

pub data Entry : Type 0 where
  absent directory file : Entry

-- What stands at a path, and whether a directory may be made there.
pub record FileSystem : Type 0 where
  pub entry : Bytes → Entry
  pub may_create : Bytes → Bool

-- `mkdir`, and `stat` if something is there. The flag is true for 0.
unfoldable pub ensure_directory_exists : FileSystem → Bytes → Bool × FileSystem
ensure_directory_exists fs path = elim (fs.entry path) [
  | directory ↦ (true, fs)
  | file ↦ (false, fs)
  | absent ↦
      if fs.may_create path
      then (true, record fs { entry = λ p. if same_string p path then directory else fs.entry p })
      else (false, fs)
]

abbrev pub support_suffix : Bytes
support_suffix = codes "/Library/Application Support/audioctl"

-- From the path on; it has to fit the buffer with its null.
unfoldable pub directory_at : Bytes → ℕ → FileSystem → Option Bytes × FileSystem
directory_at path path_size fs =
    let (there, fs') = ensure_directory_exists fs path in
    if leb path_size (length path) then (none, fs) else (if there then some path else none, fs')

-- `none` for -1.
unfoldable pub get_support_directory : Accounts → ℕ → FileSystem → Option Bytes × FileSystem
get_support_directory a path_size fs = elim (get_home_directory a) [
  | none ↦ (none, fs)
  | some home ↦ directory_at (home ++ support_suffix) path_size fs
]

-- The body that the functions for the three files share.
unfoldable pub file_path : Option Bytes → Bytes → ℕ → Option Bytes
file_path none name path_size = none
file_path (some dir) name path_size =
    let path = dir ++ (47 ∷ name) in if leb path_size (length path) then none else some path

unfoldable pub get_pid_file_path : Accounts → ℕ → FileSystem → Option Bytes × FileSystem
get_pid_file_path a path_size fs =
    let (dir, fs') = get_support_directory a path_max fs in
    (file_path dir (codes "audioctl.pid") path_size, fs')

unfoldable pub get_log_file_path : Accounts → ℕ → FileSystem → Option Bytes × FileSystem
get_log_file_path a path_size fs =
    let (dir, fs') = get_support_directory a path_max fs in
    (file_path dir (codes "audioctl.log") path_size, fs')

unfoldable pub get_lock_file_path : Accounts → ℕ → FileSystem → Option Bytes × FileSystem
get_lock_file_path a path_size fs =
    let (dir, fs') = get_support_directory a path_max fs in
    (file_path dir (codes "audioctl.lock") path_size, fs')
