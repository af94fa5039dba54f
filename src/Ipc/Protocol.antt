-- ===== src/Ipc/Protocol.antt =====
-- The IPC protocol (include/ipc/ipc_protocol.h and src/ipc/ipc_protocol.c): the packed structures
-- with their byte layout, little-endian, the commands and the status codes. A `pid_t` and an
-- `int32_t` are their 32-bit patterns.
pub mod Command
pub mod IpcStatus
pub mod Roundtrip
use audioctl.Base.{
  ℕ, ◌+◌, ◌%◌, ◌^◌, Bool, true, false, not, ◌&&◌, ◌||◌, Option, none, some, List, [], ◌∷◌, ◌++◌,
  length, drop, ltb, ◌==◌, if◌then◌else◌,
}
use audioctl.Base.Float.{Float32}
use audioctl.Base.Bytes.{Bytes, encode_le, decode_le}
use Prim.Native.String.{String}

abbrev pub max_payload_size : ℕ
max_payload_size = 4096

abbrev pub protocol_version : ℕ
protocol_version = 1

abbrev pub ipc_magic : ℕ
ipc_magic = 0x4149_5043

-- The -1 that functions return.
abbrev pub minus_one : ℕ
minus_one = 0xffff_ffff

-- `IPCMessageHeader`
pub record Header : Type 0 where
  pub magic : ℕ
  pub version : ℕ
  pub command : ℕ
  pub payload_len : ℕ
  pub request_id : ℕ

abbrev pub header_size : ℕ
header_size = 16

unfoldable pub encode_header : Header → Bytes
encode_header h =
    encode_le 4 h.magic
    ++ (encode_le 2 h.version
        ++ (encode_le 2 h.command ++ (encode_le 4 h.payload_len ++ encode_le 4 h.request_id)))

unfoldable pub decode_header : Bytes → Header
decode_header bs = record {
  magic = decode_le 4 bs;
  version = decode_le 2 (drop 4 bs);
  command = decode_le 2 (drop 6 bs);
  payload_len = decode_le 4 (drop 8 bs);
  request_id = decode_le 4 (drop 12 bs);
}

unfoldable pub ipc_init_header : ℕ → ℕ → ℕ → Header
ipc_init_header command payload_len request_id = record {
  magic = ipc_magic;
  version = protocol_version;
  command = command;
  payload_len = payload_len;
  request_id = request_id;
}

-- The `switch` of `ipc_validate_header`.
unfoldable pub is_command : ℕ → Bool
is_command c =
    c == Command.register
    || (c == Command.unregister
        || (c == Command.get_volume
            || (c == Command.set_volume
                || (c == Command.get_mute
                    || (c == Command.set_mute
                        || (c == Command.list_clients
                            || (c == Command.ping
                                || (c == Command.response || c == Command.error))))))))

unfoldable pub ipc_validate_header : Header → Bool
ipc_validate_header h =
    if not (h.magic == ipc_magic)
    then false
    else if not (h.version == protocol_version)
    then false
    else if ltb max_payload_size h.payload_len
    then false
    else is_command h.command

unfoldable pub ipc_status_to_string : ℕ → String
ipc_status_to_string status =
    if status == IpcStatus.ok
    then "OK"
    else if status == IpcStatus.invalid_header
    then "Invalid message header"
    else if status == IpcStatus.unknown_command
    then "Unknown command"
    else if status == IpcStatus.payload_too_large
    then "Payload too large"
    else if status == IpcStatus.client_not_found
    then "Client not found"
    else if status == IpcStatus.invalid_volume
    then "Invalid volume value"
    else if status == IpcStatus.service_unavailable
    then "Service unavailable"
    else if status == IpcStatus.internal_error
    then "Internal error"
    else "Unknown status"

-- A C `bool` in a packed structure.
abbrev pub byte_of_bool : Bool → ℕ
byte_of_bool b = if b then 1 else 0

abbrev pub bool_of_byte : ℕ → Bool
bool_of_byte b = not (b == 0)

-- `IPCResponse`, 8 bytes before its data.
unfoldable pub encode_response : ℕ → ℕ → Bytes
encode_response status data_len = encode_le 4 status ++ encode_le 4 data_len

-- `IPCVolumeResponse`, 9 bytes.
unfoldable pub encode_volume_response : ℕ → Float32 → Bool → Bytes
encode_volume_response status volume muted =
    encode_le 4 status ++ (encode_le 4 volume ++ (byte_of_bool muted ∷ []))

abbrev pub response_size : ℕ
response_size = 8

abbrev pub volume_response_size : ℕ
volume_response_size = 9

-- `"%s/%s"` of the support directory, `none` if that cannot be had, and IPC_SOCKET_FILENAME, into a
-- buffer of `path_size` bytes with the final null.
unfoldable pub get_ipc_socket_path : Option Bytes → Bytes → ℕ → Option Bytes
get_ipc_socket_path none filename path_size = none
get_ipc_socket_path (some support_dir) filename path_size =
    let path = support_dir ++ (b'/' ∷ filename) in
    if ltb (length path) path_size then some path else none
