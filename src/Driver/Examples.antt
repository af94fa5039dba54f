-- ===== src/Driver/Examples.antt =====
-- The driver's theorems at concrete inputs.
use audioctl.Base.{arith, ℕ, ◌≡◌, ◌≢◌, refl, true, false, none, some, List, [], ◌∷◌, ◌⊎◌}
use audioctl.Base.Float.{Float32, f_hundred}
use audioctl.Base.Status.{no_err, illegal_operation_error, not_running_error}
use audioctl.Ipc.Client.{Attempt, Exchange, ipc_client_init}
use audioctl.Driver.Device.{
  stopped, running, VirtualAudioDevice, OutputBuffer, virtual_device_process_output,
}
use audioctl.Driver.Device.State.{IsValid, is_running}
use audioctl.Driver.Device.Memory.{Answers, virtual_device_create}
use audioctl.Driver.Device.Memory.Balance.{Succeeded, Failed, create_all_or_nothing}
use audioctl.Driver.Device.Output.{AreProcessed, process_output_lem}
use audioctl.Driver.Clients.{
  Slot, free_slot, max_clients, AppVolumeTable, Driver, find_pid, app_volume_driver_get_client_pids,
  is_positive, app_volume_driver_init,
}
use audioctl.Driver.Clients.Registered.{
  Change, add, remove, apply, Directory, directory_of, answer, size_after, process_after,
  change_refines, get_client_pids_lem, init_cleanup-IsValid,
}

abbrev device : VirtualAudioDevice
device = record {
  device_id = 1;
  state = stopped;
  device_is_running = false;
  volume_control_value = f_hundred;
  mute_state = false;
  output_stream = record {
    stream_id = 2;
    is_active = false;
    samples = some (1 ∷ 2 ∷ []);
    buffer_frame_size = 1;
  };
}

device-IsValid : IsValid device
device-IsValid = record {
  usable = refl;
  flag = refl;
  stream = refl;
  not_below = refl;
  not_above = refl;
}

abbrev no_samples : Answers
no_samples = record {
  device_id = 1;
  stream_id = 2;
  device = true;
  uid = true;
  name = false;
  buffer_list = true;
  samples = false;
}

create_all_or_nothing_example :
    Succeeded no_samples (virtual_device_create no_samples)
    ⊎ Failed (virtual_device_create no_samples)
create_all_or_nothing_example = create_all_or_nothing no_samples

-- A product and a quotient, for the parameters.
abbrev second : Float32 → Float32 → Float32
second x y = y

abbrev playing : VirtualAudioDevice
playing = record device { state = running; device_is_running = true }

abbrev buffers : List OutputBuffer
buffers = record { number_channels = 2; data_byte_size = 0; samples = 5 ∷ 6 ∷ 7 ∷ [] } ∷ []

process_output_lem_example :
    let (status, result) = virtual_device_process_output second second playing (some buffers) 1 in
    ((out : List OutputBuffer) × (playing.state ≡ running)
      × (◌≢◌ {A = ℕ} 1 0)
      × (status ≡ no_err)
      × (result ≡ some out)
      × AreProcessed second second playing 1 buffers out)
    ⊎ ((result ≡ some buffers)
        × (((◌≡◌ {A = ℕ} 1 0) × (status ≡ illegal_operation_error))
            ⊎ ((is_running playing.state ≡ false) × (status ≡ not_running_error))))
process_output_lem_example = process_output_lem second second playing buffers 1 (omega arith, tt)

abbrev exchange : Exchange
exchange = record {
  header_sent = false;
  payload_sent = false;
  header_bytes = none;
  payload = none;
  sent_at = 0;
  received_at = 0;
}

abbrev attempt : Attempt
attempt = record {
  path_known = true;
  file_exists = false;
  socket = none;
  timeout_set = false;
  connecting = false;
  now = 0;
}

abbrev off : Driver
off = record {
  clients = [];
  client_count = 0;
  initialized = false;
  ipc_client = ipc_client_init;
  ipc_initialized = false;
  volume_table = record { count = 0; reserved = 0; entries = [] };
}

-- A driver with one client, number 4 of process 77.
abbrev driver : Driver
driver = (apply (add 4 77 none none true exchange) (app_volume_driver_init off attempt)).1

driver-IsValid : audioctl.Driver.Clients.Registered.IsValid driver
driver-IsValid =
    (change_refines (add 4 77 none none true exchange) (app_volume_driver_init off attempt) 4
      (init_cleanup-IsValid off attempt 4).0).3

change_refines_example :
    let (status, g') = apply (add 5 78 none none true exchange) driver in
    (status ≡ answer (add 5 78 none none true exchange) (directory_of driver))
    × (find_pid g'.clients 5
        ≡ process_after (add 5 78 none none true exchange) (directory_of driver) 5)
    × (g'.client_count ≡ size_after (add 5 78 none none true exchange) (directory_of driver))
    × audioctl.Driver.Clients.Registered.IsValid g'
change_refines_example = change_refines (add 5 78 none none true exchange) driver 5 driver-IsValid
