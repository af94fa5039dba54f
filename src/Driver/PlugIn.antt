-- ===== src/Driver/PlugIn.antt =====
-- The entry points of the plug-in (src/driver/virtual_audio_driver.c): the factory function, the
-- reference count, the initialisation, the clients of the device, and the calls that do nothing.
-- A lock makes each call one step.
pub mod Host
mod Examples
use audioctl.Base.{
  ℕ, ◌+◌, ◌-◌, Bool, true, false, not, ◌||◌, Option, none, some, ◌==◌, ltb, add32, if◌then◌else◌,
}
use audioctl.Base.Status.{OsStatus, no_err, other}
use audioctl.Ipc.Client.{Attempt, Exchange}
use audioctl.Driver.Clients.{
  Driver, app_volume_driver_init, app_volume_driver_add_client, app_volume_driver_remove_client,
}
use audioctl.Driver.Loopback.{Io}

-- The static variables. The host and the plug-in's own reference are pointers; the ticks of a frame
-- are a Float64.
pub record PlugIn : Type 0 where
  pub ref_count : ℕ
  pub host : Option ℕ
  pub host_ticks_per_frame : ℕ
  pub io : Io
  pub clients : Driver

-- The type that the factory function is asked for: whether it is that of a server plug-in.
unfoldable pub audio_server_plug_in_initialize : ℕ → Bool → Option ℕ
audio_server_plug_in_initialize driver_ref is_plug_in_type =
    if is_plug_in_type then some driver_ref else none

-- `kAudioHardwareBadObjectError`, `E_NOINTERFACE` and `S_OK`
pub data HResult : Type 0 where
  bad_object no_interface ok : HResult

-- Whether the driver is the plug-in's and the address of the result is given, and whether the
-- interface is IUnknown or that of the driver; the result is what is written to the address.
unfoldable pub query_interface : ℕ → PlugIn → Bool → Bool → Bool → HResult × PlugIn × Option ℕ
query_interface driver_ref p own_driver has_address is_known =
    if not own_driver || not has_address
    then (bad_object, p, none)
    else if is_known
    then (ok, record p { ref_count = add32 p.ref_count 1 }, some driver_ref)
    else (no_interface, p, none)

unfoldable pub add_ref : PlugIn → ℕ × PlugIn
add_ref p = (add32 p.ref_count 1, record p { ref_count = add32 p.ref_count 1 })

unfoldable pub release : PlugIn → ℕ × PlugIn
release p =
    if ltb 0 p.ref_count
    then (p.ref_count - 1, record p { ref_count = p.ref_count - 1 })
    else (0, p)

-- The ticks of a frame are the quotient of the clock's frequency and the sample rate.
unfoldable pub initialize : PlugIn → ℕ → ℕ → Attempt → OsStatus × PlugIn
initialize p host ticks attempt = (
  no_err,
  record p {
    host = some host;
    host_ticks_per_frame = ticks;
    clients = app_volume_driver_init p.clients attempt;
  },
)

-- `kAudioHardwareUnsupportedOperationError`
abbrev pub unsupported_operation_error : OsStatus
unsupported_operation_error = other 0x756e_6f70

unfoldable pub create_device : PlugIn → OsStatus × PlugIn
create_device p = (unsupported_operation_error, p)

unfoldable pub destroy_device : PlugIn → OsStatus × PlugIn
destroy_device p = (unsupported_operation_error, p)

-- The client and its process, `none` for a null pointer; whether the buffer of the request can be
-- had, and what the socket answers to it.
unfoldable pub add_device_client : PlugIn → Option (ℕ × ℕ) → Bool → Exchange → OsStatus × PlugIn
add_device_client p none allocated x = (no_err, p)
add_device_client p (some (client_id, pid)) allocated x = (
  no_err,
  record p {
    clients = (app_volume_driver_add_client p.clients client_id pid none none allocated x).1;
  },
)

unfoldable pub remove_device_client : PlugIn → Option (ℕ × ℕ) → Exchange → OsStatus × PlugIn
remove_device_client p none x = (no_err, p)
remove_device_client p (some (client_id, pid)) x =
    (no_err, record p { clients = (app_volume_driver_remove_client p.clients client_id x).1 })

unfoldable pub perform_device_configuration_change : PlugIn → OsStatus × PlugIn
perform_device_configuration_change p = (no_err, p)

unfoldable pub abort_device_configuration_change : PlugIn → OsStatus × PlugIn
abort_device_configuration_change p = (no_err, p)

unfoldable pub begin_io_operation : PlugIn → OsStatus × PlugIn
begin_io_operation p = (no_err, p)

unfoldable pub end_io_operation : PlugIn → OsStatus × PlugIn
end_io_operation p = (no_err, p)
