-- ===== src/Cli/Virtual.antt =====
-- `audioctl use-virtual` and `audioctl use-physical` (src/main.c): the program moves the default
-- output to the virtual device and back. CoreAudio and the calls for processes are parameters.
use audioctl.Base.{
  ◌⊎◌, ℕ, ◌≡◌, Bool, false, not, ◌&&◌, Option, none, some, List, [], ◌∷◌, ◌++◌, ◌==◌, if◌then◌else◌,
}
use audioctl.Base.Float.{Float32, f_one, flt}
use audioctl.Base.Bytes.{Bytes, codes}
use audioctl.Base.Status.{is_no_err}
use audioctl.Manager.{
  CoreAudio, Machine, virtual_device_is_installed, virtual_device_is_active_output,
  virtual_device_activate_with_router, virtual_device_deactivate, restore_previous_device,
}
use audioctl.Manager.Binding.{save_bound_physical_device, get_bound_physical_device_uid}
use audioctl.Cli.Route.{is_empty, router_arguments}

-- Whether the binding file can be written, the volume of the physical device (`none` if its
-- information cannot be had), and whether the program knows its own path.
pub record UseCalls : Type 0 where
  pub writable : Bool
  pub physical_volume : Option Float32
  pub path_known : Bool

-- The calls whose result no result of the command depends on.
pub data Effect : Type 0 where
  kill_router kill_ipc_service spawn_ipc_service : Effect
  set_device_volume : ℕ → Float32 → Effect
  audio_router_start_with_volume : Bytes → Float32 → Effect
  spawn_router : List Bytes → Effect

abbrev pub Result : Type 0 → Type 0
Result S = ℕ × Machine S × Option Bytes × List Effect

-- The effects after the switch, with the default output of then.
unfoldable pub start_routing : UseCalls → ℕ → Bytes → Float32 → List Effect
start_routing a output uid volume =
    (if flt volume f_one && not (output == 0) then set_device_volume output volume ∷ [] else [])
    ++ ((if a.path_known then kill_ipc_service ∷ spawn_ipc_service ∷ [] else [])
        ++ (if is_empty uid
            then []
            else audio_router_start_with_volume uid volume
              ∷ kill_router
              ∷ spawn_router (router_arguments uid)
              ∷ []))

module _ {S : Type 0} (audio : CoreAudio S) where
  -- The command from `get_default_output_device` on. A null UID counts as a failed call.
  unfoldable pub bind_and_activate : UseCalls → Machine S → Option Bytes → Result S
  bind_and_activate a m binding =
      let device = audio.get_output m.audio in
      let (uid_status, text) = audio.device_uid m.audio device in
      let known = not (device == 0) && is_no_err uid_status in
      let uid = if known then text else [] in
      let binding' =
        if known then (save_bound_physical_device a.writable uid binding).1 else binding in
      let volume =
        if device == 0 then f_one else elim (a.physical_volume) [ none ↦ f_one | some v ↦ v ] in
      let (status, m') = virtual_device_activate_with_router audio m in
      if is_no_err status
      then (0, m', binding', start_routing a (audio.get_output m'.audio) uid volume)
      else (1, m', binding', [])

  unfoldable pub use_virtual : UseCalls → Machine S → Option Bytes → Result S
  use_virtual a m binding =
      let (installed, s1) = virtual_device_is_installed audio m.audio in
      let (active, s2) = virtual_device_is_active_output audio s1 in
      if not installed
      then (1, record m { audio = s1 }, binding, [])
      else if active
      then (0, record m { audio = s2 }, binding, [])
      else bind_and_activate a (record m { audio = s2 }) binding

  unfoldable pub use_physical : Machine S → Option Bytes → Result S
  use_physical m binding =
      let (status, m') = virtual_device_deactivate audio m in
      (if is_no_err status then 0 else 1, m', none, kill_router ∷ kill_ipc_service ∷ [])

  -- The effects of a switch that has succeeded: the volume goes to the new output where it is below
  -- 1, the service is started anew, and so is the router, for this UID.
  abbrev pub routed : ℕ → Bytes → Float32 → List Effect
  routed output uid v =
      (if flt v f_one then set_device_volume output v ∷ [] else [])
      ++ (kill_ipc_service
          ∷ spawn_ipc_service
          ∷ audio_router_start_with_volume uid v
          ∷ kill_router
          ∷ spawn_router (codes "internal-route" ∷ (codes "--router-target=" ++ uid) ∷ [])
          ∷ [])

  -- A switch from a physical device that has the UID.
  abbrev pub IsSwitched : ℕ → ℕ → Bytes → Float32 → Result S → Type 0
  IsSwitched before device uid v (status, m', binding', effects) =
      (get_bound_physical_device_uid 256 binding' ≡ some uid)
      × (restore_previous_device m'.state_file ≡ before)
      × (((status ≡ 0)
            × (device == 0 ≡ false)
            × (audio.get_output m'.audio ≡ device)
            × (effects ≡ routed device uid v))
          ⊎ ((status ≡ 1) × (effects ≡ [])))
