-- ===== src/Ipc/Interop.antt =====
-- The client against the server: what the client makes of the server's own replies.
pub mod Reply
pub mod Listing
pub mod Carried
pub mod EndToEnd
mod Examples
use audioctl.Base.{
  ℕ, ◌*◌, ◌^◌, ◌≤◌, ◌<◌, ◌≡◌, sym, ap, ◌∙◌, Bool, true, Option, none, some, [], ◌++◌, take, add32,
  take-append, append-nil, arith,
}
use audioctl.Base.Bytes.{Bytes, encode_le}
use audioctl.Ipc.Protocol.{
  Header, header_size, ipc_init_header, encode_header, decode_header, ipc_validate_header,
  encode_response, response_size, volume_response_size, max_payload_size,
}
use audioctl.Ipc.Protocol.Command
use audioctl.Ipc.Protocol.IpcStatus
use audioctl.Ipc.Protocol.Roundtrip.{decode-encode_header, IsWide}
use audioctl.Ipc.Registry.{ServerContext, ipc_server_list_clients}
use audioctl.Ipc.Server.Reply.{Memory, reply_bytes, reply_body}
use audioctl.Ipc.Server.Dispatch.{Outcome, handle_get_volume, handle_list_clients}
use audioctl.Ipc.Client.{
  ClientContext, Exchange, ipc_client_send, ipc_client_recv, recv_payload, ipc_client_send_sync,
}
use audioctl.Ipc.Client.Requests.{query_volume, ipc_client_get_app_volume, ipc_client_list_apps}
use audioctl.Ipc.Interop.Reply.{reply_header, take_reply, decode_reply, reply_of, reply_len}

-- A response whose header announces more than the buffer holds is not received.
recv_too_long :
    (ctx : ClientContext) (size : ℕ) (x : Exchange) (bytes : Bytes)
    → x.header_bytes ≡ some bytes
    → size < (decode_header bytes).payload_len
    → (ipc_client_recv ctx size x).0 ≡ none
unfolding ipc_client_recv recv_payload
recv_too_long ctx size x bytes came long = ground arith

sync_too_long :
    (ctx : ClientContext) (request : Header) (payload : Option Bytes) (size : ℕ) (x : Exchange)
    (bytes : Bytes)
    → x.header_bytes ≡ some bytes
    → size < (decode_header bytes).payload_len
    → (ipc_client_send_sync ctx request payload size x).0 ≡ none
unfolding ipc_client_send_sync
sync_too_long ctx request payload size x bytes came long =
    ground (arith, recv_too_long (ipc_client_send ctx request payload x).1 size x bytes came long)

-- The volume that the client's query yields is none whenever what comes back has a payload longer
-- than `IPCVolumeResponse`.
query_too_long :
    (ctx : ClientContext) (pid : ℕ) (x : Exchange) (bytes : Bytes)
    → x.header_bytes ≡ some bytes
    → volume_response_size < (decode_header bytes).payload_len
    → (ipc_client_get_app_volume ctx pid x).0 ≡ none
unfolding ipc_client_get_app_volume query_volume
query_too_long ctx pid x bytes came long = ground (
  arith,
  sync_too_long ctx (ipc_init_header Command.get_volume 4 1) (some (encode_le 4 pid))
      volume_response_size x bytes came long,
)

ok_means_found :
    (sctx : ServerContext) (request : Header) (payload : Option Bytes)
    → (handle_get_volume sctx request payload).status ≡ IpcStatus.ok
    → (handle_get_volume sctx request payload).response_len ≡ volume_response_size
unfolding handle_get_volume
ok_means_found sctx request payload ok = ground arith

-- When the server answers a GetVolume with the status OK, the client gets no volume from it: the
-- reply is an `IPCResponse` followed by an `IPCVolumeResponse`, 17 bytes, while the client has
-- room for the latter alone. The hypotheses are that the server's handler reports OK, that the
-- identifier of the request is a `uint32_t`, and that the client reads the header of that reply.
pub get_volume_answer_lost :
    (sctx : ServerContext) (mem : Memory) (request : Header) (payload : Option Bytes)
    (ctx : ClientContext) (pid : ℕ) (x : Exchange)
    → request.request_id < 2 ^ 32
    → (handle_get_volume sctx request payload).status ≡ IpcStatus.ok
    → x.header_bytes
      ≡ some (
          take header_size
            (reply_of mem request.request_id (handle_get_volume sctx request payload)))
    → (ipc_client_get_app_volume ctx pid x).0 ≡ none
get_volume_answer_lost sctx mem request payload ctx pid x small ok came =
    query_too_long ctx pid x _ came (
      ground (
        arith,
        reply_len mem request.request_id (handle_get_volume sctx request payload) small,
        ok_means_found sctx request payload ok,
      ))

-- A response that fails the check of its header is not received.
sync_invalid :
    (ctx : ClientContext) (request : Header) (payload : Option Bytes) (size : ℕ) (x : Exchange)
    (bytes : Bytes)
    → x.header_bytes ≡ some bytes
    → max_payload_size < (decode_header bytes).payload_len
    → (ipc_client_send_sync ctx request payload size x).0 ≡ none
unfolding ipc_client_send_sync ipc_client_recv ipc_validate_header
sync_invalid ctx request payload size x bytes came long = ground arith

list_invalid :
    (ctx : ClientContext) (buffer_allocated list_allocated : Bool) (x : Exchange) (bytes : Bytes)
    → x.header_bytes ≡ some bytes
    → max_payload_size < (decode_header bytes).payload_len
    → (ipc_client_list_apps ctx buffer_allocated list_allocated x).0 ≡ none
unfolding ipc_client_list_apps
list_invalid ctx buffer_allocated list_allocated x bytes came long = ground (
  arith,
  sync_invalid ctx (ipc_init_header Command.list_clients 0 1) none max_payload_size x bytes came
      long,
)

-- The count of a registry that is neither small nor huge.
listing_len :
    (sctx : ServerContext) (mem : Memory)
    → 15 ≤ sctx.client_count
    → sctx.client_count ≤ 15000000
    → mem.list ≡ true
    → mem.reply_data ≡ true
    → (handle_list_clients sctx mem).response_len ≡ 273 * sctx.client_count
unfolding handle_list_clients ipc_server_list_clients
listing_len sctx mem many few list_memory data_memory = ground arith

-- With 15 clients or more (and at most 15 million, so that no length wraps) the server's listing is
-- longer than IPC_MAX_PAYLOAD_SIZE, so a client that reads its header gets no list at all. The
-- other hypotheses are that the server's allocations succeed and that the identifier of the request
-- is a `uint32_t`.
pub list_clients_too_long :
    (sctx : ServerContext) (mem : Memory) (id : ℕ) (ctx : ClientContext)
    (buffer_allocated list_allocated : Bool) (x : Exchange)
    → 15 ≤ sctx.client_count
    → sctx.client_count ≤ 15000000
    → mem.list ≡ true
    → mem.reply_data ≡ true
    → id < 2 ^ 32
    → x.header_bytes ≡ some (take header_size (reply_of mem id (handle_list_clients sctx mem)))
    → (ipc_client_list_apps ctx buffer_allocated list_allocated x).0 ≡ none
list_clients_too_long sctx mem id ctx buffer_allocated list_allocated x many few list_memory
      data_memory small came =
    list_invalid ctx buffer_allocated list_allocated x _ came (
      omega (
        arith,
        reply_len mem id (handle_list_clients sctx mem) small,
        listing_len sctx mem many few list_memory data_memory,
      ))
