-- ===== src/Paths/Support.antt =====
-- Every file of the program stands in one directory, which the first call makes.
use audioctl.Base.{
  ◌≢◌, Bool-cases, ℕ, ◌<◌, ◌≡◌, refl, ◌∙◌, sym, true, Option, none, some, [], ◌∷◌, ◌++◌, length,
  take, arith, Option-cases, inl, inr, ◌⊎◌,
}
use audioctl.Base.Bytes.{Bytes, codes}
use audioctl.Cli.{same_string}
use audioctl.Ipc.Protocol.{get_ipc_socket_path}
use audioctl.Paths.{
  Accounts, usable_name, named_home, get_home_directory, directory, FileSystem,
  ensure_directory_exists, support_suffix, directory_at, get_support_directory, file_path, path_max,
  get_pid_file_path, get_log_file_path, get_lock_file_path,
}

same_string_self : (s : Bytes) → same_string s s ≡ true
unfolding same_string
same_string_self [] = refl
same_string_self (c ∷ s) = ground (arith, same_string_self s)

-- With success a directory is there, and a second call changes nothing.
ensured :
    (fs : FileSystem) (path : Bytes)
    → (ensure_directory_exists fs path).0 ≡ true
    → let fs' = (ensure_directory_exists fs path).1 in
      (fs'.entry path ≡ directory) × (ensure_directory_exists fs' path ≡ (true, fs'))
unfolding ensure_directory_exists
ensured fs path h = ground (arith, same_string_self path, h)

made :
    (fs fs' : FileSystem) (path dir : Bytes) (size : ℕ)
    → directory_at path size fs ≡ (some dir, fs')
    → (dir ≡ path)
      × (length path < size)
      × ((ensure_directory_exists fs path).0 ≡ true)
      × (fs' ≡ (ensure_directory_exists fs path).1)
unfolding directory_at
made fs fs' path dir size h = ground (arith, h)

made_again :
    (fs : FileSystem) (path : Bytes) (size : ℕ)
    → length path < size
    → (ensure_directory_exists fs path).0 ≡ true
    → directory_at path size (ensure_directory_exists fs path).1
      ≡ (some path, (ensure_directory_exists fs path).1)
unfolding directory_at
made_again fs path size fits there = rw (ensured fs path there).1 (ground (arith, fits))

at_home :
    (a : Accounts) (fs : FileSystem) (size : ℕ) (home : Bytes)
    → get_home_directory a ≡ some home
    → get_support_directory a size fs ≡ directory_at (home ++ support_suffix) size fs
unfolding get_support_directory
at_home a fs size home found = rw (found, get_support_directory) refl

supported :
    (a : Accounts) (fs fs' : FileSystem) (size : ℕ) (dir : Bytes)
    → get_support_directory a size fs ≡ (some dir, fs')
    → (fs'.entry dir ≡ directory)
      × (length dir < size)
      × (get_support_directory a size fs' ≡ (some dir, fs'))
unfolding get_support_directory
supported a fs fs' size dir h = elim (Option-cases (get_home_directory a)) [
  | inl missing ↦ absurd (ground (arith, missing, h))
  | inr (home, found) ↦
      let path = home ++ support_suffix in
      let (same, fits, there, after) =
        made fs fs' path dir size (sym (at_home a fs size home found) ∙ h) in
      rw (same, after)
        (
          (ensured fs path there).0,
          fits,
          at_home a _ size home found ∙ made_again fs path size fits there,
        )
]

same_body :
    (dir name : Bytes) (size : ℕ)
    → get_ipc_socket_path (some dir) name size ≡ file_path (some dir) name size
unfolding get_ipc_socket_path file_path
same_body dir name size = ground arith

-- Once the support directory has been found or made, its path names a directory, and the PID file,
-- the log file, the lock file and the socket all get paths in it, in any buffer, without another
-- change of the file system: `none` exactly where a path with its null does not fit.
pub support_directory_holds :
    (a : Accounts) (fs fs' : FileSystem) (dir name : Bytes) (size : ℕ)
    → get_support_directory a path_max fs ≡ (some dir, fs')
    → (fs'.entry dir ≡ directory)
      × (get_pid_file_path a size fs' ≡ (file_path (some dir) (codes "audioctl.pid") size, fs'))
      × (get_log_file_path a size fs' ≡ (file_path (some dir) (codes "audioctl.log") size, fs'))
      × (get_lock_file_path a size fs' ≡ (file_path (some dir) (codes "audioctl.lock") size, fs'))
      × (get_ipc_socket_path (get_support_directory a path_max fs').0 name size
          ≡ file_path (some dir) name size)
unfolding get_pid_file_path get_log_file_path get_lock_file_path
support_directory_holds a fs fs' dir name size h =
    let (there, fits, again) = supported a fs fs' path_max dir h in
    (there, rw again refl, rw again refl, rw again refl, rw again (same_body dir name size))

-- A name that stands for a user: it is not empty, and not root.
abbrev pub IsNamed : Option Bytes → Bytes → Type 0
IsNamed name user = (name ≡ some user) × (user ≢ []) × (user ≢ codes "root")

-- A name that does not: there is none, or it is empty, or it is root.
abbrev pub IsPassed : Option Bytes → Type 0
IsPassed name = (name ≡ none) ⊎ ((name ≡ some []) ⊎ (name ≡ some (codes "root")))

-- The user is the one who is logged in, or else the one of sudo.
abbrev pub IsUser : Accounts → Bytes → Type 0
IsUser a user = IsNamed a.login_name user ⊎ (IsPassed a.login_name × IsNamed a.sudo_user user)

same_string_eq : (s t : Bytes) → same_string s t ≡ true → s ≡ t
unfolding same_string
same_string_eq [] [] h = refl
same_string_eq [] (c ∷ t) h = absurd (ground (arith, h))
same_string_eq (c ∷ s) [] h = absurd (ground (arith, h))
same_string_eq (c ∷ s) (d ∷ t) h = ground (arith, same_string_eq s t, h)

usable : (name : Option Bytes) (user : Bytes) → IsNamed name user → usable_name name ≡ some user
unfolding usable_name
usable name [] (e, some_bytes, ordinary) = absurd (some_bytes refl)
usable name (c ∷ s) (e, some_bytes, ordinary) =
    rw e (elim (Bool-cases (same_string (c ∷ s) (codes "root"))) [
      | inl root ↦ absurd (ordinary (same_string_eq (c ∷ s) (codes "root") root))
      | inr other ↦ rw other refl
    ])

passed : (name : Option Bytes) → IsPassed name → usable_name name ≡ none
unfolding usable_name same_string
passed name (inl missing) = rw missing refl
passed name (inr (inl empty)) = rw empty refl
passed name (inr (inr root)) = rw root refl

named :
    (a : Accounts) (name : Option Bytes) (user home : Bytes)
    → usable_name name ≡ some user
    → a.home_of user ≡ some home
    → named_home a name ≡ some (take 1023 home)
unfolding named_home
named a name user home e known = rw (e, named_home) (rw known refl)

unnamed : (a : Accounts) (name : Option Bytes) → usable_name name ≡ none → named_home a name ≡ none
unfolding named_home
unnamed a name e = rw (e, named_home) refl

user_home :
    (a : Accounts) (user home : Bytes)
    → IsUser a user
    → a.home_of user ≡ some home
    → get_home_directory a ≡ some (take 1023 home)
unfolding get_home_directory
user_home a user home (inl logged_in) known =
    rw (named a a.login_name user home (usable a.login_name user logged_in) known) refl
user_home a user home (inr (nobody, by_sudo)) known =
    rw
      (
        unnamed a a.login_name (passed a.login_name nobody),
        named a a.sudo_user user home (usable a.sudo_user user by_sudo) known,
      )
      refl

-- The program finds the same home directory for a user other than root whether it runs as the user
-- or, with no login name or that of root, under sudo, whatever HOME and the user id are, so both use
-- the same support directory.
pub get_support_directory-IsUser :
    (a b : Accounts) (user home : Bytes) (size : ℕ) (fs : FileSystem)
    → IsUser a user
    → IsUser b user
    → a.home_of user ≡ some home
    → b.home_of user ≡ some home
    → (get_home_directory a ≡ some (take 1023 home))
      × (get_support_directory a size fs ≡ get_support_directory b size fs)
get_support_directory-IsUser a b user home size fs as_user as_other known known' =
    let at : get_home_directory a ≡ some (take 1023 home) = user_home a user home as_user known in
    let at' : get_home_directory b ≡ some (take 1023 home) =
      user_home b user home as_other known' in
    (at, at_home a fs size _ at ∙ sym (at_home b fs size _ at'))
