-- ===== src/Manager/Status.antt =====
-- What the program reports of the virtual device (src/virtual_device_manager.c): its information, that
-- of the default output, whether the volumes of applications can be controlled, and virtual-status.
use audioctl.Base.{ℕ, Bool, true, false, not, ◌||◌, Option, none, some, ◌==◌, take, if◌then◌else◌}
use audioctl.Base.Float.{Float32}
use audioctl.Base.Bytes.{Bytes}
use audioctl.Base.Status.{OsStatus, no_err, minus_one, param_err, is_no_err}
use audioctl.Manager.{
  CoreAudio, virtual_uid, virtual_word, contains, find_virtual_device, virtual_device_is_installed,
  virtual_device_is_active_output, virtual_device_is_active,
}
use audioctl.Manager.Binding.{get_bound_physical_device_uid}
use audioctl.Devices.{Hardware, find_device_by_uid}
use audioctl.Devices.Info.{Details, get_device_info}

pub record VirtualDeviceInfo : Type 0 where
  pub device_id : ℕ
  pub is_installed : Bool
  pub is_active : Bool
  pub name : Bytes
  pub uid : Bytes

-- The status and the text that is left in the buffer of 256 bytes; `none` where `getDeviceInfo` does
-- not end at the depth.
unfoldable pub get_device_name_by_uid :
    (Float32 → Float32) → Hardware → Details → ℕ → Bytes → Option (OsStatus × Bytes)
get_device_name_by_uid scaled hw dt fuel uid =
    let device = find_device_by_uid hw uid in
    if device == 0
    then some (minus_one, take 255 uid)
    else elim (get_device_info scaled hw dt fuel device) [
      | none ↦ none
      | some (status, i) ↦
          some (if is_no_err status then (no_err, take 255 i.name) else (minus_one, take 255 uid))
    ]

-- The three messages of `virtual_device_get_app_volume_status`.
pub data AppVolumeStatus : Type 0 where
  not_installed not_default_output ready : AppVolumeStatus

-- What is shown of the binding: nothing, the name of the device, or its UID.
pub data Bound : Type 0 where
  unbound : Bound
  bound_name bound_uid : Bytes → Bound

-- The socket file of the service.
pub data ServiceState : Type 0 where
  no_path not_running running : ServiceState

-- The lines that virtual-status puts out. The control is `none` where it is available, and else the
-- reason that is given.
pub record Report : Type 0 where
  pub info : VirtualDeviceInfo
  pub is_output : Bool
  pub bound : Bound
  pub control : Option AppVolumeStatus
  pub router_running : Bool
  pub service : ServiceState

-- `name_of` is `get_device_name_by_uid` at the devices of the system.
abbrev pub shown_binding : (Bytes → OsStatus × Bytes) → Option Bytes → Bound
shown_binding name_of none = unbound
shown_binding name_of (some uid) =
    let (status, name) = name_of uid in if is_no_err status then bound_name name else bound_uid uid

module _ {S : Type 0} (audio : CoreAudio S) where
  -- `none` where the function returns false; the information then has only zeros.
  unfoldable pub virtual_device_get_info : S → Option VirtualDeviceInfo × S
  virtual_device_get_info s =
      let (device, s') = find_virtual_device audio s in
      let (active, s'') = virtual_device_is_active audio s' in
      if device == 0 then (none, s') else (
        some (record {
          device_id = device;
          is_installed = true;
          is_active = active;
          name = (audio.device_name s' device).1;
          uid = (audio.device_uid s' device).1;
        }),
        s'',
      )

  -- The flag says whether the pointer is given.
  unfoldable pub virtual_device_get_current_output_info :
      S → Bool → OsStatus × Option VirtualDeviceInfo
  virtual_device_get_current_output_info s out_info =
      let device = audio.get_output s in
      let name = (audio.device_name s device).1 in
      let uid = (audio.device_uid s device).1 in
      if not out_info then (param_err, none) else if device == 0 then (minus_one, none) else (
        no_err,
        some (record {
          device_id = device;
          is_installed = contains virtual_uid uid || contains virtual_word name;
          is_active = true;
          name = name;
          uid = uid;
        }),
      )

  unfoldable pub virtual_device_can_control_app_volume : S → Bool × S
  virtual_device_can_control_app_volume s =
      let (installed, s') = virtual_device_is_installed audio s in
      let rest = virtual_device_is_active_output audio s' in if installed then rest else (false, s')

  unfoldable pub virtual_device_get_app_volume_status : S → AppVolumeStatus × S
  virtual_device_get_app_volume_status s =
      let (installed, s1) = virtual_device_is_installed audio s in
      let (active, s2) = virtual_device_is_active_output audio s1 in
      if not installed
      then (not_installed, s1)
      else if not active
      then (not_default_output, s2)
      else (ready, s2)

  -- What follows the information, on an installed device.
  unfoldable pub report_rest :
      (Bytes → OsStatus × Bytes)
      → Option Bytes
      → Bool
      → ServiceState
      → VirtualDeviceInfo
      → S
      → Option Report × S
  report_rest name_of file router service info s1 =
      let (active, s2) = virtual_device_is_active_output audio s1 in
      let (can_control, s3) = virtual_device_can_control_app_volume s2 in
      let (reason, s4) = virtual_device_get_app_volume_status s3 in
      (
        some (record {
          info = info;
          is_output = active;
          bound =
              if active
              then shown_binding name_of (get_bound_physical_device_uid 256 file)
              else unbound;
          control = if can_control then none else some reason;
          router_running = router;
          service = service;
        }),
        if can_control then s3 else s4,
      )

  -- With the binding file, whether a router process is there, and the state of the socket file;
  -- `none` where the device is not installed.
  unfoldable pub virtual_device_print_status :
      (Bytes → OsStatus × Bytes) → Option Bytes → Bool → ServiceState → S → Option Report × S
  virtual_device_print_status name_of file router service s =
      let (found, s1) = virtual_device_get_info s in
      elim found [ none ↦ (none, s1) | some info ↦ report_rest name_of file router service info s1 ]
