-- ===== src/Ipc/Server/Status.antt =====
-- The status that a request to the server gets, by the registry and the payload alone.
use audioctl.Base.{
  ℕ, ◌^◌, ◌<◌, ◌≡◌, ◌⊎◌, inl, inr, Bool, true, false, not, ◌||◌, Option, none, some, ◌==◌, leb,
  if◌then◌else◌, arith, Option-cases,
}
use audioctl.Base.Bytes.{Bytes, decode_le}
use audioctl.Ipc.Protocol.{Header, minus_one}
use audioctl.Ipc.Protocol.Command
use audioctl.Ipc.Protocol.IpcStatus
use audioctl.Ipc.Registry.{
  ServerContext, find_entry, ipc_server_find_client, ipc_server_register_client,
  ipc_server_unregister_client, ipc_server_set_volume, ipc_server_get_volume, ipc_server_set_mute,
}
use audioctl.Ipc.Registry.Refine.{remove_entry-none, remove_entry-some}
use audioctl.Ipc.Server.Reply.{Memory}
use audioctl.Ipc.Server.Dispatch.{
  dispatch, handle_register, handle_unregister, handle_get_volume, handle_set_volume,
  handle_set_mute, payload_bytes,
}

-- Whether a process is registered.
abbrev pub is_known : ServerContext → ℕ → Bool
is_known ctx pid = elim (find_entry ctx.clients pid) [ none ↦ false | some _ ↦ true ]

-- A request on a process whose payload has to have some size.
abbrev pub on_process : Bool → ℕ → Header → Option Bytes → ℕ
on_process known size header none = IpcStatus.invalid_header
on_process known size header (some bytes) =
    if leb size header.payload_len
    then (if known then IpcStatus.ok else IpcStatus.client_not_found)
    else IpcStatus.invalid_header

abbrev pub on_register : Bool → Header → Option Bytes → ℕ
on_register refused header none = IpcStatus.invalid_header
on_register refused header (some bytes) =
    if leb 9 header.payload_len
    then (if refused then minus_one else IpcStatus.ok)
    else IpcStatus.invalid_header

-- `none` for the listing, whose status depends on the memory alone.
abbrev pub wanted_status : ServerContext → Memory → Header → Option Bytes → Option ℕ
wanted_status ctx mem header payload =
    let known = is_known ctx (decode_le 4 (payload_bytes payload)) in
    if header.command == Command.register
    then some (on_register (known || not mem.entry) header payload)
    else if header.command == Command.unregister
    then some (on_process known 4 header payload)
    else if header.command == Command.get_volume
    then some (on_process known 4 header payload)
    else if header.command == Command.set_volume
    then some (on_process known 8 header payload)
    else if header.command == Command.set_mute
    then some (on_process known 5 header payload)
    else if header.command == Command.ping
    then some IpcStatus.ok
    else if header.command == Command.list_clients
    then none
    else some IpcStatus.unknown_command

abbrev pub IsStatus : Option ℕ → ℕ → Type 0
IsStatus wanted status = (wanted ≡ none) ⊎ (wanted ≡ some status)

register_status :
    (ctx : ServerContext) (mem : Memory) (now : ℕ) (header : Header) (payload : Option Bytes)
    → (handle_register ctx mem now header payload).status
      ≡ on_register
          (is_known ctx (decode_le 4 (payload_bytes payload)) || not mem.entry)
          header
          payload
unfolding handle_register ipc_server_register_client ipc_server_find_client
register_status ctx mem now header payload = ground arith

unregister_status :
    (ctx : ServerContext) (header : Header) (payload : Option Bytes)
    → (handle_unregister ctx header payload).status
      ≡ on_process (is_known ctx (decode_le 4 (payload_bytes payload))) 4 header payload
unfolding handle_unregister ipc_server_unregister_client
unregister_status ctx header payload =
    let pid = decode_le 4 (payload_bytes payload) in
    elim (Option-cases (find_entry ctx.clients pid)) [
      | inl missing ↦ ground (arith, missing, remove_entry-none ctx.clients pid missing)
      | inr (c, found) ↦
          let (rest, removed) = remove_entry-some ctx.clients pid found in
          ground (arith, found, removed)
    ]

get_volume_status :
    (ctx : ServerContext) (header : Header) (payload : Option Bytes)
    → (handle_get_volume ctx header payload).status
      ≡ on_process (is_known ctx (decode_le 4 (payload_bytes payload))) 4 header payload
unfolding handle_get_volume ipc_server_get_volume ipc_server_find_client
get_volume_status ctx header payload = ground arith

set_volume_status :
    (ctx : ServerContext) (header : Header) (payload : Option Bytes)
    → (handle_set_volume ctx header payload).status
      ≡ on_process (is_known ctx (decode_le 4 (payload_bytes payload))) 8 header payload
unfolding handle_set_volume ipc_server_set_volume ipc_server_find_client
set_volume_status ctx header payload = ground arith

set_mute_status :
    (ctx : ServerContext) (header : Header) (payload : Option Bytes)
    → (handle_set_mute ctx header payload).status
      ≡ on_process (is_known ctx (decode_le 4 (payload_bytes payload))) 5 header payload
unfolding handle_set_mute ipc_server_set_mute ipc_server_find_client
set_mute_status ctx header payload = ground arith

-- The `switch` gives the status that is wanted.
pub dispatch-IsStatus :
    (ctx : ServerContext) (mem : Memory) (now : ℕ) (header : Header) (payload : Option Bytes)
    → IsStatus (wanted_status ctx mem header payload) (dispatch ctx mem now header payload).status
unfolding dispatch
dispatch-IsStatus ctx mem now header payload = ground (
  arith,
  register_status ctx mem now header payload,
  unregister_status ctx header payload,
  get_volume_status ctx header payload,
  set_volume_status ctx header payload,
  set_mute_status ctx header payload,
)

on_process_small :
    (known : Bool) (size : ℕ) (header : Header) (payload : Option Bytes)
    → on_process known size header payload < 2 ^ 32
on_process_small known size header payload = ground arith

on_register_small :
    (refused : Bool) (header : Header) (payload : Option Bytes)
    → on_register refused header payload < 2 ^ 32
on_register_small refused header payload = ground arith

-- A status that is wanted fits its field.
pub wanted_small :
    (ctx : ServerContext) (mem : Memory) (header : Header) (payload : Option Bytes) (status : ℕ)
    → wanted_status ctx mem header payload ≡ some status
    → status < 2 ^ 32
wanted_small ctx mem header payload status h =
    let known = is_known ctx (decode_le 4 (payload_bytes payload)) in
    ground (
      arith,
      h,
      on_register_small (known || not mem.entry) header payload,
      on_process_small known 4 header payload,
      on_process_small known 5 header payload,
      on_process_small known 8 header payload,
    )
