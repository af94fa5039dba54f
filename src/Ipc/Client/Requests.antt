-- ===== src/Ipc/Client/Requests.antt =====
-- The requests of the IPC client, one function of src/ipc/ipc_client.c each. The flag is true for
-- the result 0.
use audioctl.Base.{
  ℕ, zero, suc, ◌+◌, ◌/◌, Bool, false, not, ◌&&◌, Option, none, some, List, [], ◌∷◌, ◌++◌, length,
  take, drop, get_or, ◌==◌, ◌||◌, if◌then◌else◌,
}
use audioctl.Base.Float.{Float32}
use audioctl.Base.Bytes.{Bytes, encode_le, decode_le}
use audioctl.Ipc.Protocol.{
  Header, ipc_init_header, response_size, volume_response_size, byte_of_bool, bool_of_byte,
  max_payload_size,
}
use audioctl.Ipc.Protocol.Command
use audioctl.Ipc.Protocol.IpcStatus
use audioctl.Ipc.Client.{ClientContext, Exchange, ipc_client_is_connected, ipc_client_send_sync}

-- The test of a response: its command, and the status at the start of its payload. A payload of
-- fewer than 4 bytes leaves the rest of the status at 0, as `= {0}` has set it.
abbrev pub is_ok : Header → Bytes → Bool
is_ok header bytes = header.command == Command.response && decode_le 4 bytes == IpcStatus.ok

-- A request whose answer is an `IPCResponse`.
unfoldable pub ask : ClientContext → ℕ → Option Bytes → ℕ → Exchange → Bool × ClientContext
ask ctx command payload payload_len x =
    if not (ipc_client_is_connected ctx)
    then (false, ctx)
    else (let (answer, ctx') =
          ipc_client_send_sync ctx (ipc_init_header command payload_len 1) payload response_size
            x in
        (elim answer [ none ↦ false | some (header, bytes) ↦ is_ok header bytes ], ctx'))

-- `IPCRegisterRequest` with the name behind it, and the other requests.
abbrev pub register_payload : ℕ → Float32 → Bool → Bytes → Bytes
register_payload pid volume muted name =
    encode_le 4 pid ++ (encode_le 4 volume ++ (byte_of_bool muted ∷ name))

abbrev pub set_volume_payload : ℕ → Float32 → Bytes
set_volume_payload pid volume = encode_le 4 pid ++ encode_le 4 volume

abbrev pub set_mute_payload : ℕ → Bool → Bytes
set_mute_payload pid muted = encode_le 4 pid ++ (byte_of_bool muted ∷ [])

-- The name is given with its final null; the last flag says whether `malloc` gives memory.
unfoldable pub ipc_client_register_app :
    ClientContext → ℕ → Bytes → Float32 → Bool → Bool → Exchange → Bool × ClientContext
unfolding ask
ipc_client_register_app ctx pid name volume muted allocated x =
    if allocated
    then ask ctx Command.register (some (register_payload pid volume muted name)) (9 + length name)
        x
    else (false, ctx)

unfoldable pub ipc_client_unregister_app : ClientContext → ℕ → Exchange → Bool × ClientContext
unfolding ask
ipc_client_unregister_app ctx pid x = ask ctx Command.unregister (some (encode_le 4 pid)) 4 x

unfoldable pub ipc_client_set_app_volume :
    ClientContext → ℕ → Float32 → Exchange → Bool × ClientContext
unfolding ask
ipc_client_set_app_volume ctx pid volume x =
    ask ctx Command.set_volume (some (set_volume_payload pid volume)) 8 x

unfoldable pub ipc_client_set_app_mute : ClientContext → ℕ → Bool → Exchange → Bool × ClientContext
unfolding ask
ipc_client_set_app_mute ctx pid muted x =
    ask ctx Command.set_mute (some (set_mute_payload pid muted)) 5 x

unfoldable pub ipc_client_ping : ClientContext → Exchange → Bool × ClientContext
unfolding ask
ipc_client_ping ctx x = ask ctx Command.ping none 0 x

-- The exchange of `kIPCCommandGetVolume`, as three functions of the client make it: the volume and
-- the mute state of a response that is OK.
unfoldable pub query_volume : ClientContext → ℕ → Exchange → Option (Float32 × Bool) × ClientContext
query_volume ctx pid x =
    let (answer, ctx') =
      ipc_client_send_sync ctx (ipc_init_header Command.get_volume 4 1) (some (encode_le 4 pid))
        volume_response_size x in
    (
      elim answer [
        | none ↦ none
        | some (header, bytes) ↦
            if is_ok header bytes
            then some (decode_le 4 (drop 4 bytes), bool_of_byte (get_or bytes 8 0))
            else none
      ],
      ctx',
    )

unfoldable pub ipc_client_get_app_volume :
    ClientContext → ℕ → Exchange → Option (Float32 × Bool) × ClientContext
unfolding query_volume
ipc_client_get_app_volume ctx pid x =
    if ipc_client_is_connected ctx then query_volume ctx pid x else (none, ctx)

-- `IPCAppInfo`
pub record AppInfo : Type 0 where
  pub pid : ℕ
  pub volume : Float32
  pub muted : Bool
  pub connected_at : ℕ
  pub app_name : Bytes

abbrev pub entry_size : ℕ
entry_size = 4 + 4 + 1 + 8 + 256

unfoldable pub decode_app : Bytes → AppInfo
decode_app bs = record {
  pid = decode_le 4 bs;
  volume = decode_le 4 (drop 4 bs);
  muted = bool_of_byte (get_or bs 8 0);
  connected_at = decode_le 8 (drop 9 bs);
  app_name = take 256 (drop 17 bs);
}

-- The loop over the response buffer, from its first byte on.
unfoldable pub parse_apps : ℕ → Bytes → List AppInfo
parse_apps zero bs = []
parse_apps (suc n) bs = decode_app bs ∷ parse_apps n (drop entry_size bs)

-- The list, `none` for -1. The flags say whether the response buffer and the list are allocated.
unfoldable pub ipc_client_list_apps :
    ClientContext → Bool → Bool → Exchange → Option (List AppInfo) × ClientContext
ipc_client_list_apps ctx buffer_allocated list_allocated x =
    if not (ipc_client_is_connected ctx) || not buffer_allocated
    then (none, ctx)
    else (let (answer, ctx') =
          ipc_client_send_sync ctx (ipc_init_header Command.list_clients 0 1) none max_payload_size
            x in
        (
          elim answer [
            | none ↦ none
            | some (header, bytes) ↦
                let count = header.payload_len / entry_size in
                if not (header.command == Command.response)
                then none
                else if count == 0
                then some []
                else if list_allocated
                then some (parse_apps count bytes)
                else none
          ],
          ctx',
        ))
