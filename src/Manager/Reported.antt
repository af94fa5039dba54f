-- ===== src/Manager/Reported.antt =====
-- The reports on the virtual device agree with one another and with the system.
use audioctl.Base.{
  ℕ, ◌≡◌, refl, Bool, true, false, ◌||◌, Option, none, some, ◌==◌, if◌then◌else◌, arith, Bool-cases,
  inl, inr,
}
use audioctl.Base.Bytes.{Bytes}
use audioctl.Base.Status.{OsStatus}
use audioctl.Manager.{
  CoreAudio, search_for_virtual_device, find_attempts, find_virtual_device,
  virtual_device_is_installed, virtual_device_is_active_output, virtual_device_is_active_input,
  virtual_device_is_active,
}
use audioctl.Manager.Binding.{get_bound_physical_device_uid}
use audioctl.Manager.Status.{
  VirtualDeviceInfo, not_default_output, ready, unbound, ServiceState, shown_binding,
  virtual_device_get_info, virtual_device_can_control_app_volume,
  virtual_device_get_app_volume_status, report_rest, virtual_device_print_status,
}

module _ {S : Type 0} (audio : CoreAudio S) where
  module _ (s : S) (device : ℕ) (found : search_for_virtual_device audio s ≡ device)
      (there : device == 0 ≡ false) where
    at_once : find_virtual_device audio s ≡ (device, s)
    unfolding find_virtual_device find_attempts
    at_once = rw found (ground (arith, there))

    installed : virtual_device_is_installed audio s ≡ (true, s)
    unfolding virtual_device_is_installed
    installed = rw at_once (ground (arith, there))

    output : virtual_device_is_active_output audio s ≡ (audio.get_output s == device, s)
    unfolding virtual_device_is_active_output
    output = rw at_once (ground (arith, there))

    input : virtual_device_is_active_input audio s ≡ (device == audio.get_input s, s)
    unfolding virtual_device_is_active_input
    input = rw at_once (ground (arith, there))

    pub active :
        virtual_device_is_active audio s
        ≡ (audio.get_output s == device || device == audio.get_input s, s)
    unfolding virtual_device_is_active
    active = rw (output, input) (ground arith)

    abbrev device_info : VirtualDeviceInfo
    device_info = record {
      device_id = device;
      is_installed = true;
      is_active = audio.get_output s == device || device == audio.get_input s;
      name = (audio.device_name s device).1;
      uid = (audio.device_uid s device).1;
    }

    informed : virtual_device_get_info audio s ≡ (some device_info, s)
    unfolding virtual_device_get_info
    informed = rw (at_once, active, there) refl

    controls : virtual_device_can_control_app_volume audio s ≡ (audio.get_output s == device, s)
    unfolding virtual_device_can_control_app_volume
    controls = rw (installed, output) refl

    explained :
        virtual_device_get_app_volume_status audio s
        ≡ (if audio.get_output s == device then ready else not_default_output, s)
    unfolding virtual_device_get_app_volume_status
    explained = rw (installed, output) (ground arith)

    rested :
        (name_of : Bytes → OsStatus × Bytes) (file : Option Bytes) (router : Bool)
        (service : ServiceState)
        → let on = audio.get_output s == device in
          report_rest audio name_of file router service device_info s ≡ (
            some (record {
              info = device_info;
              is_output = on;
              bound =
                  if on
                  then shown_binding name_of (get_bound_physical_device_uid 256 file)
                  else unbound;
              control = if on then none else some not_default_output;
              router_running = router;
              service = service;
            }),
            s,
          )
    unfolding report_rest
    rested name_of file router service =
        rw (output, controls, explained)
          (elim (Bool-cases (audio.get_output s == device)) [
            | inl on ↦ rw on refl
            | inr off ↦ rw off refl
          ])

    pub reported :
        (name_of : Bytes → OsStatus × Bytes) (file : Option Bytes) (router : Bool)
        (service : ServiceState)
        → let on = audio.get_output s == device in
          virtual_device_print_status audio name_of file router service s ≡ (
            some (record {
              info = device_info;
              is_output = on;
              bound =
                  if on
                  then shown_binding name_of (get_bound_physical_device_uid 256 file)
                  else unbound;
              control = if on then none else some not_default_output;
              router_running = router;
              service = service;
            }),
            s,
          )
    unfolding virtual_device_print_status
    reported name_of file router service =
        rw (informed, virtual_device_print_status)
          (rw informed (rested name_of file router service))

  -- Where the search shows a virtual device:
  -- `virtual_device_can_control_app_volume` says yes exactly when
  -- `virtual_device_get_app_volume_status` says that it is ready, which is when the device is the default output, and
  -- virtual-status reports the same, with no change of the system.
  pub print_status_lem :
      (name_of : Bytes → OsStatus × Bytes) (file : Option Bytes) (router : Bool)
      (service : ServiceState) (s : S) (device : ℕ)
      → search_for_virtual_device audio s ≡ device
      → device == 0 ≡ false
      → let on = audio.get_output s == device in
        (virtual_device_can_control_app_volume audio s ≡ (on, s))
        × (virtual_device_get_app_volume_status audio s
            ≡ (if on then ready else not_default_output, s))
        × (virtual_device_print_status audio name_of file router service s ≡ (
          some (record {
            info = record {
              device_id = device;
              is_installed = true;
              is_active = on || device == audio.get_input s;
              name = (audio.device_name s device).1;
              uid = (audio.device_uid s device).1;
            };
            is_output = on;
            bound =
                if on
                then shown_binding name_of (get_bound_physical_device_uid 256 file)
                else unbound;
            control = if on then none else some not_default_output;
            router_running = router;
            service = service;
          }),
          s,
        ))
  print_status_lem name_of file router service s device found there = (
    controls s device found there,
    explained s device found there,
    reported s device found there name_of file router service,
  )
