-- ===== src/Driver/PlugIn/Examples.antt =====
-- The theorems of the plug-in and of its properties at concrete inputs.
use audioctl.Base.{◌+◌, ◌*◌, ◌≡◌, refl, true, false, not, ◌&&◌, none, some, List, [], ◌∷◌}
use audioctl.Base.Float.{Float32}
use audioctl.Ipc.Client.{Attempt, Exchange, ipc_client_init}
use audioctl.Driver.Clients.{AppVolumeTable}
use audioctl.Driver.Clients.Slots.{active_pids}
use audioctl.Driver.Loopback.{device_object_id}
use audioctl.Driver.Properties.{
  device_streams, nominal_sample_rate, app_volumes, app_client_list, global_scope, other_scope,
  has_property, get_property_data, get_property_data_size, process_ids,
}
use audioctl.Driver.Properties.Sizes.{
  overflows, Fits, is_some, too_small, get_property_data-Fits, get_property_data-has_property,
}
use audioctl.Driver.PlugIn.{PlugIn}
use audioctl.Driver.PlugIn.Host.{
  IsValid, HostCall, query, initialise, add_client, start_io_at, host_calls, loaded,
  host_calls_from_loaded, loaded-IsValid,
}

abbrev fmul : Float32 → Float32 → Float32
fmul x y = x

abbrev table : AppVolumeTable
table = record { count = 0; reserved = 0; entries = [] }

-- No socket answers.
abbrev offline : Attempt
offline = record {
  path_known = false;
  file_exists = false;
  socket = none;
  timeout_set = false;
  connecting = false;
  now = 0;
}

abbrev exchange : Exchange
exchange = record {
  header_sent = false;
  payload_sent = false;
  header_bytes = none;
  payload = none;
  sent_at = 0;
  received_at = 0;
}

abbrev fresh : PlugIn
fresh = loaded ipc_client_init table

-- The interface, the initialisation, two clients, and the start of the first.
abbrev calls : List HostCall
calls =
    query true true true
    ∷ initialise 7 20833 offline
    ∷ add_client (some (1, 501)) true exchange
    ∷ add_client (some (2, 502)) true exchange
    ∷ start_io_at device_object_id 1000
    ∷ []

host_calls_from_loaded_example :
    let p = host_calls fmul 9 calls fresh in
    IsValid p
    × (get_property_data p.clients p.io device_object_id app_client_list global_scope
          (get_property_data_size device_object_id app_client_list global_scope)
        ≡ (some (process_ids (active_pids p.clients.clients)), 4 + p.clients.client_count * 4))
host_calls_from_loaded_example =
    host_calls_from_loaded fmul 9 ipc_client_init table calls global_scope

get_property_data-Fits_example :
    let announced = get_property_data_size device_object_id nominal_sample_rate global_scope in
    Fits (overflows device_object_id nominal_sample_rate global_scope) announced (
      get_property_data fresh.clients fresh.io device_object_id nominal_sample_rate global_scope
        announced)
unfolding has_property
get_property_data-Fits_example =
    get_property_data-Fits fresh.clients fresh.io device_object_id nominal_sample_rate global_scope
      (loaded-IsValid ipc_client_init table).table refl

get_property_data-has_property_example :
    is_some
      (get_property_data fresh.clients fresh.io device_object_id app_volumes global_scope 9000)
    ≡ (has_property device_object_id app_volumes && not (too_small app_volumes 9000))
get_property_data-has_property_example =
    get_property_data-has_property fresh.clients fresh.io device_object_id app_volumes global_scope
      9000

-- 8 bytes are written where 4 were announced.
streams_overflow :
    (get_property_data_size device_object_id device_streams (other_scope 1) ≡ 4)
    × ((get_property_data fresh.clients fresh.io device_object_id device_streams
          (other_scope 1)
          4).1
        ≡ 8)
unfolding get_property_data get_property_data_size
streams_overflow = (refl, refl)
