-- ===== src/Paths/Examples.antt =====
-- The theorems of the paths for a user with a home directory.
use audioctl.Base.{◌≡◌, refl, false, none, some, take, inl, inr, if◌then◌else◌}
use audioctl.Base.Bytes.{Bytes, codes}
use audioctl.Cli.{same_string}
use audioctl.Ipc.Protocol.{get_ipc_socket_path}
use audioctl.Paths.{
  Accounts, usable_name, named_home, FileSystem, absent, directory, get_home_directory,
  ensure_directory_exists, directory_at, get_support_directory, path_max, get_pid_file_path,
  get_log_file_path, get_lock_file_path, file_path,
}
use audioctl.Paths.Support.{support_directory_holds, get_support_directory-IsUser}

abbrev ann : Bytes
ann = codes "ann"

abbrev accounts : Accounts
accounts = record {
  login_name = some ann;
  home_of = λ user. some (codes "/Users/ann");
  sudo_user = none;
  home_variable = some (codes "/Users/ann");
  own_home = none;
}

-- The program under sudo, from a login of root.
abbrev as_root : Accounts
as_root = record {
  login_name = some (codes "root");
  home_of = λ user. some (codes "/Users/ann");
  sudo_user = some ann;
  home_variable = some (codes "/var/root");
  own_home = some (codes "/var/root");
}

abbrev dir : Bytes
dir = codes "/Users/ann/Library/Application Support/audioctl"

abbrev files : FileSystem
files = record {
  entry = λ p. if same_string p dir then directory else absent;
  may_create = λ p. false;
}

support_directory_holds_example :
    (files.entry dir ≡ directory)
    × (get_pid_file_path accounts 1024 files
        ≡ (file_path (some dir) (codes "audioctl.pid") 1024, files))
    × (get_log_file_path accounts 1024 files
        ≡ (file_path (some dir) (codes "audioctl.log") 1024, files))
    × (get_lock_file_path accounts 1024 files
        ≡ (file_path (some dir) (codes "audioctl.lock") 1024, files))
    × (get_ipc_socket_path (get_support_directory accounts path_max files).0 (codes "ipc.sock") 1024
        ≡ file_path (some dir) (codes "ipc.sock") 1024)
unfolding get_support_directory get_home_directory directory_at ensure_directory_exists same_string
    usable_name named_home
support_directory_holds_example =
    support_directory_holds accounts files files dir (codes "ipc.sock") 1024 refl

get_support_directory-IsUser_example :
    (get_home_directory accounts ≡ some (take 1023 (codes "/Users/ann")))
    × (get_support_directory accounts 1024 files ≡ get_support_directory as_root 1024 files)
get_support_directory-IsUser_example =
    get_support_directory-IsUser accounts as_root ann (codes "/Users/ann") 1024 files
      (inl (refl, cc, cc)) (inr (inr (inr refl), (refl, cc, cc))) refl refl
