-- ===== src/Control/Listing.antt =====
-- `app_volume_cli_list` (src/app_volume_control.c): the applications that the IPC server knows, or
-- else those of the system. What the socket and the query of the system answer is a parameter.
use audioctl.Base.{ℕ, Bool, false, not, ◌&&◌, Option, none, some, List, [], ◌∷◌, map, if◌then◌else◌}
use audioctl.Base.Float.{Float32}
use audioctl.Base.Bytes.{Bytes}
use audioctl.Base.Status.{OsStatus, is_no_err}
use audioctl.Manager.{CoreAudio}
use audioctl.Manager.Status.{VirtualDeviceInfo, virtual_device_get_info}
use audioctl.Ipc.Registry.Names.{app_name_of}
use audioctl.Ipc.Client.{Attempt, Exchange, ipc_client_init, ipc_client_connect}
use audioctl.Ipc.Client.Requests.{AppInfo, ipc_client_list_apps}

-- What `getAudioApps` tells of an application.
pub record AudioApp : Type 0 where
  pub pid : ℕ
  pub volume : Float32
  pub name : Bytes

-- The attempt to connect, whether the buffers of the answer can be had, the exchange, the answer of
-- `getAudioApps`, and whether the array for it can be had.
pub record ListCalls : Type 0 where
  pub attempt : Attempt
  pub buffer_allocated : Bool
  pub list_allocated : Bool
  pub exchange : Exchange
  pub audio_apps : OsStatus × List AudioApp
  pub array_allocated : Bool

-- What the command shows.
pub data Listing : Type 0 where
  no_device not_active no_service : Listing
  shown : List AppInfo → Listing

abbrev pub app_of : AudioApp → AppInfo
app_of a = record {
  pid = a.pid;
  volume = a.volume;
  muted = false;
  connected_at = 0;
  app_name = app_name_of a.name;
}

abbrev pub fall_back_apps : ListCalls → List AppInfo
fall_back_apps c =
    if is_no_err c.audio_apps.0 && c.array_allocated then map app_of c.audio_apps.1 else []

-- The list of the server, unless there is none or it is empty.
abbrev pub server_or : Option (List AppInfo) → List AppInfo → List AppInfo
server_or (some (a ∷ rest)) other = a ∷ rest
server_or (some []) other = other
server_or none other = other

unfoldable pub listing_of : ListCalls → Option VirtualDeviceInfo → Listing
listing_of c none = no_device
listing_of c (some info) =
    let (connected, ctx) = ipc_client_connect ipc_client_init c.attempt in
    let (answer, ctx') = ipc_client_list_apps ctx c.buffer_allocated c.list_allocated c.exchange in
    if not info.is_active
    then not_active
    else if not connected
    then no_service
    else shown (server_or answer (fall_back_apps c))

unfoldable pub app_volume_cli_list : {S : Type 0} → CoreAudio S → ListCalls → S → Listing × S
app_volume_cli_list audio c s =
    let (info, s') = virtual_device_get_info audio s in (listing_of c info, s')
