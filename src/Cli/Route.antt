-- ===== src/Cli/Route.antt =====
-- The choice of the command, and the background router that `spawn_router` starts (src/main.c).
use audioctl.Base.{
  ◌+◌, ◌≤◌, ◌≡◌, refl, ap, ◌∙◌, Bool, true, false, ◌||◌, List, [], ◌∷◌, ◌++◌, length, take, drop,
  if◌then◌else◌, take_all, arith,
}
use audioctl.Base.Bytes.{Bytes, codes}
use audioctl.Manager.{begins_with}
use audioctl.Cli.{same_string}

-- What `main` does, with the arguments from `argv[2]` on where it looks at them.
pub data Action : Type 0 where
  no_command version help apps log_view ipc_service service_status other_service unknown : Action
  list_devices set_device app_volume virtual_device : List Bytes → Action
  route : Bytes → Action

abbrev pub target_prefix : Bytes
target_prefix = codes "--router-target="

-- The loop over the arguments: the first one with the prefix, cut to the buffer of 256 bytes.
unfoldable pub router_target : List Bytes → Bytes
router_target [] = []
router_target (arg ∷ args) =
    let rest = router_target args in
    if begins_with target_prefix arg then take 255 (drop 16 arg) else rest

abbrev pub is_empty : Bytes → Bool
is_empty [] = true
is_empty (c ∷ s) = false

abbrev pub route_or_log : Bytes → Action
route_or_log uid = if is_empty uid then log_view else route uid

-- The arguments from `argv[1]` on.
unfoldable pub main : List Bytes → Action
main [] = no_command
main (cmd ∷ args) =
    if same_string cmd (codes "--version") || same_string cmd (codes "-v")
    then version
    else if same_string cmd (codes "help")
    then help
    else if same_string cmd (codes "list")
    then list_devices args
    else if same_string cmd (codes "set")
    then set_device args
    else if same_string cmd (codes "apps")
    then apps
    else if begins_with (codes "app-") cmd
    then app_volume args
    else if same_string cmd (codes "virtual-status")
        || (same_string cmd (codes "use-virtual") || same_string cmd (codes "use-physical"))
    then virtual_device args
    else if same_string cmd (codes "internal-route")
    then route_or_log (router_target args)
    else if same_string cmd (codes "internal-ipc-service")
    then ipc_service
    else if begins_with (codes "--") cmd
    then (if same_string cmd (codes "--service-status") then service_status else other_service)
    else unknown

-- The forms of the command set.
pub data SetForm : Type 0 where
  usage_error volume_form device_form : SetForm

unfoldable pub handle_set_command : List Bytes → SetForm
handle_set_command [] = usage_error
handle_set_command (arg ∷ args) = if begins_with (codes "-") arg then volume_form else device_form

-- The arguments that `spawn_router` gives, cut to its buffer of 512 bytes.
unfoldable pub router_arguments : Bytes → List Bytes
router_arguments physical_uid =
    codes "internal-route" ∷ take 511 (target_prefix ++ physical_uid) ∷ []

prefixed :
    (uid : Bytes)
    → (begins_with target_prefix (target_prefix ++ uid) ≡ true)
      × (drop 16 (target_prefix ++ uid) ≡ uid)
      × (length (target_prefix ++ uid) ≡ 16 + length uid)
unfolding begins_with
prefixed uid = (refl, refl, omega arith)

routed :
    (args : List Bytes) → main (codes "internal-route" ∷ args) ≡ route_or_log (router_target args)
unfolding main same_string begins_with
routed args = refl

filled : (uid : Bytes) → 1 ≤ length uid → route_or_log uid ≡ route uid
filled [] h = absurd (omega arith)
filled (c ∷ s) h = refl

target_first :
    (arg : Bytes)
    → begins_with target_prefix arg ≡ true
    → router_target (arg ∷ []) ≡ take 255 (drop 16 arg)
unfolding router_target
target_first arg h = rw h refl

-- The process that `spawn_router` starts for a device routes to that device, if its UID is not empty
-- and fits the buffer of 256 bytes.
pub main-router_arguments :
    (uid : Bytes) → 1 ≤ length uid → length uid ≤ 255 → main (router_arguments uid) ≡ route uid
unfolding router_arguments
main-router_arguments uid some_bytes fits =
    let (first, rest, size) = prefixed uid in
    ap (λ arg. main (codes "internal-route" ∷ arg ∷ []))
      (take_all 511 (target_prefix ++ uid) (omega (arith, size)))
    ∙ routed ((target_prefix ++ uid) ∷ [])
    ∙ ap route_or_log
        (target_first (target_prefix ++ uid) first ∙ ap (take 255) rest ∙ take_all 255 uid fits)
    ∙ filled uid some_bytes
