-- ===== src/Cli/App.antt =====
-- `audioctl app-...` (src/main.c): the commands for the volumes of applications.
use audioctl.Base.{
  ℕ, ◌≡◌, refl, Bool, false, not, ◌&&◌, ◌||◌, Option, none, some, List, [], ◌∷◌, if◌then◌else◌,
  arith,
}
use audioctl.Base.Float.{Float32}
use audioctl.Base.Bytes.{Bytes, codes}
use audioctl.Manager.{CoreAudio, virtual_device_is_active}
use audioctl.Control.{
  Control, app_volume_control_init, app_volume_control_cleanup, app_volume_cli_set,
  app_volume_cli_mute,
}
use audioctl.Control.Array.{empty_list}
use audioctl.Control.Listing.{ListCalls, Listing, app_volume_cli_list}
use audioctl.Cli.{same_string}

-- The exit status, the volumes, the list that is shown, and the system.
abbrev pub Result : Type 0 → Type 0
Result S = ℕ × Control × Option Listing × S

abbrev pub is_mute_command : Bytes → Bool
is_mute_command cmd = same_string cmd (codes "app-mute") || same_string cmd (codes "app-unmute")

-- The arguments from `argv[2]` on.
abbrev pub set_app_volume : (Bytes → Float32) → List Bytes → ℕ
set_app_volume strtof (app ∷ volume ∷ rest) = app_volume_cli_set app (strtof volume)
set_app_volume strtof _ = 1

abbrev pub mute_app : Bool → List Bytes → ℕ
mute_app mute (app ∷ rest) = app_volume_cli_mute app mute
mute_app mute [] = 1

-- app-volume, app-mute and app-unmute.
abbrev pub changes_volume : Bytes → Bool
changes_volume cmd =
    not (same_string cmd (codes "app-volumes"))
    && (same_string cmd (codes "app-volume") || is_mute_command cmd)

module _ {S : Type 0} (audio : CoreAudio S) where
  -- Between the initialisation of the volumes and their clean-up.
  unfoldable pub app_command :
      (Bytes → Float32) → ListCalls → Bytes → List Bytes → S → ℕ × Option Listing × S
  app_command strtof c cmd args s =
      let (listing, s') = app_volume_cli_list audio c s in
      if same_string cmd (codes "app-volumes")
      then (0, some listing, s')
      else if same_string cmd (codes "app-volume")
      then (set_app_volume strtof args, none, s)
      else if is_mute_command cmd
      then (mute_app (same_string cmd (codes "app-mute")) args, none, s)
      else (0, none, s)

  -- With the name of the command.
  unfoldable pub handle_app_volume_commands :
      (Bytes → Float32) → ListCalls → Control → Bytes → List Bytes → S → Result S
  handle_app_volume_commands strtof c g cmd args s =
      let (active, s1) = virtual_device_is_active audio s in
      let (result, listing, s2) = app_command strtof c cmd args s1 in
      if not active
      then (1, g, none, s1)
      else (result, app_volume_control_cleanup (app_volume_control_init g), listing, s2)

  no_volume : (strtof : Bytes → Float32) (args : List Bytes) → set_app_volume strtof args ≡ 1
  unfolding app_volume_cli_set
  no_volume strtof [] = refl
  no_volume strtof (app ∷ []) = refl
  no_volume strtof (app ∷ volume ∷ rest) = refl

  no_mute : (mute : Bool) (args : List Bytes) → mute_app mute args ≡ 1
  unfolding app_volume_cli_mute
  no_mute mute [] = refl
  no_mute mute (app ∷ rest) = refl

  command_status :
      (strtof : Bytes → Float32) (c : ListCalls) (cmd : Bytes) (args : List Bytes) (s : S)
      → (app_command strtof c cmd args s).0 ≡ (if changes_volume cmd then 1 else 0)
  unfolding app_command
  command_status strtof c cmd args s =
      ground (arith, no_volume strtof args, no_mute (same_string cmd (codes "app-mute")) args)

  -- Whatever its arguments, a command that begins with "app-" succeeds exactly when the virtual device is
  -- the default output or input and the command is not app-volume, app-mute or app-unmute, so these
  -- three never succeed and any other name does. While the device is active the volumes are empty
  -- and not initialised afterwards; otherwise they stay as they are.
  pub handle_app_volume_commands_lem :
      (strtof : Bytes → Float32) (c : ListCalls) (g : Control) (cmd : Bytes) (args : List Bytes)
      (s : S)
      → let (status, g', listing, s') = handle_app_volume_commands strtof c g cmd args s in
        let active = (virtual_device_is_active audio s).0 in
        (status ≡ (if active && not (changes_volume cmd) then 0 else 1))
        × (g'.volumes ≡ (if active then empty_list else g.volumes))
        × (g'.initialized ≡ (if active then false else g.initialized))
  unfolding handle_app_volume_commands app_volume_control_init app_volume_control_cleanup
  handle_app_volume_commands_lem strtof c g cmd args s =
      let done = command_status strtof c cmd args (virtual_device_is_active audio s).1 in
      (ground (arith, done), ground arith, ground arith)
