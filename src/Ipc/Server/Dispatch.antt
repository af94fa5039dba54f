-- ===== src/Ipc/Server/Dispatch.antt =====
-- The commands of the IPC server: the `switch` of `handle_client_message` in src/ipc/ipc_server.c.
use audioctl.Base.{
  ℕ, ◌+◌, Bool, false, Option, none, some, List, [], ◌∷◌, ◌++◌, drop, get_or, ◌==◌, leb, mul32,
  if◌then◌else◌,
}
use audioctl.Base.Bytes.{Bytes, encode_le, decode_le}
use audioctl.Ipc.Protocol.{
  Header, byte_of_bool, bool_of_byte, encode_volume_response, volume_response_size,
}
use audioctl.Ipc.Protocol.Command
use audioctl.Ipc.Protocol.IpcStatus
use audioctl.Ipc.Registry.{
  ClientEntry, ServerContext, ipc_server_register_client, ipc_server_unregister_client,
  ipc_server_set_volume, ipc_server_get_volume, ipc_server_set_mute, ipc_server_list_clients,
}
use audioctl.Ipc.Server.Reply.{Memory}

-- The context, and `status`, `response_data` and `response_len` behind the `switch`.
pub record Outcome : Type 0 where
  pub ctx : ServerContext
  pub status : ℕ
  pub response_data : Option Bytes
  pub response_len : ℕ

abbrev pub plain : ServerContext → ℕ → Outcome
plain ctx status = record { ctx = ctx; status = status; response_data = none; response_len = 0 }

-- `header.payload_len >= size && payload != NULL`
abbrev pub has_payload : ℕ → Header → Option Bytes → Bool
has_payload size header none = false
has_payload size header (some bytes) = leb size header.payload_len

abbrev pub payload_bytes : Option Bytes → Bytes
payload_bytes none = []
payload_bytes (some bytes) = bytes

-- Any failure of an operation on a client is reported as an unknown client.
abbrev pub or_not_found : ℕ × ServerContext → Outcome
or_not_found (result, ctx) = plain ctx (if result == 0 then result else IpcStatus.client_not_found)

-- `IPCRegisterRequest` of 9 bytes, and the name behind it.
unfoldable pub handle_register : ServerContext → Memory → ℕ → Header → Option Bytes → Outcome
handle_register ctx mem now header payload =
    let bytes = payload_bytes payload in
    if has_payload 9 header payload
    then (let (result, ctx') =
          ipc_server_register_client ctx (decode_le 4 bytes) (decode_le 4 (drop 4 bytes))
            (bool_of_byte (get_or bytes 8 0)) (drop 9 bytes) now mem.entry in
        plain ctx' result)
    else plain ctx IpcStatus.invalid_header

unfoldable pub handle_unregister : ServerContext → Header → Option Bytes → Outcome
handle_unregister ctx header payload =
    if has_payload 4 header payload
    then or_not_found (ipc_server_unregister_client ctx (decode_le 4 (payload_bytes payload)))
    else plain ctx IpcStatus.invalid_header

unfoldable pub handle_get_volume : ServerContext → Header → Option Bytes → Outcome
handle_get_volume ctx header payload =
    if has_payload 4 header payload
    then elim (ipc_server_get_volume ctx (decode_le 4 (payload_bytes payload))) [
      | none ↦ plain ctx IpcStatus.client_not_found
      | some (volume, muted) ↦ record {
        ctx = ctx;
        status = IpcStatus.ok;
        response_data = some (encode_volume_response IpcStatus.ok volume muted);
        response_len = volume_response_size;
      }
    ]
    else plain ctx IpcStatus.invalid_header

unfoldable pub handle_set_volume : ServerContext → Header → Option Bytes → Outcome
handle_set_volume ctx header payload =
    let bytes = payload_bytes payload in
    if has_payload 8 header payload
    then or_not_found (ipc_server_set_volume ctx (decode_le 4 bytes) (decode_le 4 (drop 4 bytes)))
    else plain ctx IpcStatus.invalid_header

unfoldable pub handle_set_mute : ServerContext → Header → Option Bytes → Outcome
handle_set_mute ctx header payload =
    let bytes = payload_bytes payload in
    if has_payload 5 header payload
    then or_not_found
        (ipc_server_set_mute ctx (decode_le 4 bytes) (bool_of_byte (get_or bytes 4 0)))
    else plain ctx IpcStatus.invalid_header

-- One client in the listing: 273 bytes.
abbrev pub entry_size : ℕ
entry_size = 4 + 4 + 1 + 8 + 256

unfoldable pub encode_client : ClientEntry → Bytes
encode_client c =
    encode_le 4 c.pid
    ++ (encode_le 4 c.volume ++ (byte_of_bool c.muted ∷ (encode_le 8 c.connected_at ++ c.app_name)))

unfoldable pub encode_clients : List ClientEntry → Bytes
encode_clients [] = []
encode_clients (c ∷ cs) = encode_client c ++ encode_clients cs

unfoldable pub handle_list_clients : ServerContext → Memory → Outcome
handle_list_clients ctx mem =
    let (clients, count) = ipc_server_list_clients ctx mem.list in
    elim clients [
      | none ↦ plain ctx IpcStatus.ok
      | some cs ↦
          if count == 0
          then plain ctx IpcStatus.ok
          else if mem.reply_data
          then record {
            ctx = ctx;
            status = IpcStatus.ok;
            response_data = some (encode_clients cs);
            response_len = mul32 entry_size count;
          }
          else record {
            ctx = ctx;
            status = IpcStatus.internal_error;
            response_data = none;
            response_len = mul32 entry_size count;
          }
    ]

unfoldable pub dispatch : ServerContext → Memory → ℕ → Header → Option Bytes → Outcome
dispatch ctx mem now header payload =
    if header.command == Command.register
    then handle_register ctx mem now header payload
    else if header.command == Command.unregister
    then handle_unregister ctx header payload
    else if header.command == Command.get_volume
    then handle_get_volume ctx header payload
    else if header.command == Command.set_volume
    then handle_set_volume ctx header payload
    else if header.command == Command.set_mute
    then handle_set_mute ctx header payload
    else if header.command == Command.ping
    then plain ctx IpcStatus.ok
    else if header.command == Command.list_clients
    then handle_list_clients ctx mem
    else plain ctx IpcStatus.unknown_command
