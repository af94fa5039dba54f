-- ===== src/Cli/SessionExamples.antt =====
-- The theorems on a whole session at concrete inputs.
use audioctl.Base.{◌≡◌, true, false, not, ◌&&◌, none, some, [], ◌∷◌, if◌then◌else◌}
use audioctl.Base.Float.{Float32}
use audioctl.Base.Bytes.{Bytes, codes}
use audioctl.Base.Status.{OsStatus, no_err}
use audioctl.Ipc.Client.{ipc_client_init}
use audioctl.Manager.{virtual_device_is_active}
use audioctl.Manager.Speakers.{audio}
use audioctl.Control.{Control}
use audioctl.Control.Array.{empty_list}
use audioctl.Control.Listing.{ListCalls}
use audioctl.Cli.Virtual.{UseCalls}
use audioctl.Cli.App.{handle_app_volume_commands, handle_app_volume_commands_lem, changes_volume}

abbrev speaker : Bytes
speaker = codes "Spk"

abbrev name_of : Bytes → OsStatus × Bytes
name_of uid = (no_err, codes "Speaker")

abbrev strtof : Bytes → Float32
strtof text = 0

abbrev use_calls : UseCalls
use_calls = record { writable = true; physical_volume = some 0x3f00_0000; path_known = true }

-- No server runs, and the system knows one application.
abbrev list_calls : ListCalls
list_calls = record {
  attempt = record {
    path_known = false;
    file_exists = false;
    socket = none;
    timeout_set = false;
    connecting = false;
    now = 0;
  };
  buffer_allocated = true;
  list_allocated = true;
  exchange = record {
    header_sent = false;
    payload_sent = false;
    header_bytes = none;
    payload = none;
    sent_at = 0;
    received_at = 0;
  };
  audio_apps = (no_err, record { pid = 77; volume = 0; name = codes "Player" } ∷ []);
  array_allocated = true;
}

abbrev control : Control
control = record {
  volumes = empty_list;
  initialized = false;
  ipc_client = ipc_client_init;
  ipc_initialized = false;
}

handle_app_volume_commands_lem_example :
    let (status, g', listing, s') =
      handle_app_volume_commands audio strtof list_calls control
        (codes "app-mute")
        (codes "Player" ∷ [])
        (9, 0) in
    let active = (virtual_device_is_active audio (9, 0)).0 in
    (status ≡ (if active && not (changes_volume (codes "app-mute")) then 0 else 1))
    × (g'.volumes ≡ (if active then empty_list else control.volumes))
    × (g'.initialized ≡ (if active then false else control.initialized))
handle_app_volume_commands_lem_example =
    handle_app_volume_commands_lem audio strtof list_calls control (codes "app-mute")
      (codes "Player" ∷ []) (9, 0)
