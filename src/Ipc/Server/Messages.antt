-- ===== src/Ipc/Server/Messages.antt =====
-- What one message does to the server.
use audioctl.Base.{
  ◌∙◌, refl, ap, ◌^◌, ◌<◌, drop, add32, ℕ, ◌≡◌, sym, inl, inr, Bool, true, not, ◌&&◌, Option, none,
  some, List, [], ◌∷◌, length, ◌==◌, if◌then◌else◌, Option-cases, Bool-cases, if_either, arith,
}
use mathlib.Core.Path.{subst}
use audioctl.Base.Bytes.{Bytes, encode_le, decode_le}
use audioctl.Ipc.Protocol.{
  Header, header_size, encode_header, decode_header, ipc_validate_header, ipc_init_header,
  response_size, encode_response,
}
use audioctl.Ipc.Protocol.Roundtrip.{decode-encode_header}
use audioctl.Ipc.Protocol.Command
use audioctl.Ipc.Protocol.IpcStatus
use audioctl.Ipc.Registry.{ServerContext}
use audioctl.Ipc.Registry.Invariant.{
  IsValid, register-IsValid, unregister-IsValid, set_volume-IsValid, set_mute-IsValid,
}
use audioctl.Ipc.Server.Status.{wanted_status, IsStatus, dispatch-IsStatus, wanted_small}
use audioctl.Ipc.Server.Reply.{Effect, send_bytes, Memory, reply_bytes, send_response}
use audioctl.Ipc.Server.Dispatch.{
  Outcome, plain, has_payload, dispatch, handle_register, handle_unregister, handle_get_volume,
  handle_set_volume, handle_set_mute, handle_list_clients,
}
use audioctl.Ipc.Server.{
  Server, Message, came, drop_client, answer_message, read_payload, read_message,
  handle_client_message,
}

-- What holds of every command's outcome holds of the `switch`.
dispatch_each {κ} :
    (P : Outcome → Type κ) (ctx : ServerContext) (mem : Memory) (now : ℕ) (header : Header)
    (payload : Option Bytes)
    → P (handle_register ctx mem now header payload)
    → P (handle_unregister ctx header payload)
    → P (handle_get_volume ctx header payload)
    → P (handle_set_volume ctx header payload)
    → P (handle_set_mute ctx header payload)
    → P (handle_list_clients ctx mem)
    → ((status : ℕ) → P (plain ctx status))
    → P (dispatch ctx mem now header payload)
unfolding dispatch
dispatch_each P ctx mem now header payload register unregister get_volume set_volume set_mute
      listing other =
    if_either P (header.command == Command.register) _ _ register (
      if_either P (header.command == Command.unregister) _ _ unregister (
        if_either P (header.command == Command.get_volume) _ _ get_volume (
          if_either P (header.command == Command.set_volume) _ _ set_volume (
            if_either P (header.command == Command.set_mute) _ _ set_mute (
              if_either P (header.command == Command.ping) _ _ (other IpcStatus.ok) (
                if_either P (header.command == Command.list_clients) _ _ listing
                  (other IpcStatus.unknown_command)))))))

register_handler-IsValid :
    (ctx : ServerContext) (mem : Memory) (now : ℕ) (header : Header) (payload : Option Bytes)
    → IsValid ctx
    → IsValid (handle_register ctx mem now header payload).ctx
unfolding handle_register
register_handler-IsValid ctx mem now header payload v =
    if_either (λ (o : Outcome). IsValid o.ctx) (has_payload 9 header payload) _ _
      (register-IsValid ctx _ _ _ _ now mem.entry v) v

unregister_handler-IsValid :
    (ctx : ServerContext) (header : Header) (payload : Option Bytes)
    → IsValid ctx
    → IsValid (handle_unregister ctx header payload).ctx
unfolding handle_unregister
unregister_handler-IsValid ctx header payload v =
    if_either (λ (o : Outcome). IsValid o.ctx) (has_payload 4 header payload) _ _
      (unregister-IsValid ctx _ v) v

set_volume_handler-IsValid :
    (ctx : ServerContext) (header : Header) (payload : Option Bytes)
    → IsValid ctx
    → IsValid (handle_set_volume ctx header payload).ctx
unfolding handle_set_volume
set_volume_handler-IsValid ctx header payload v =
    if_either (λ (o : Outcome). IsValid o.ctx) (has_payload 8 header payload) _ _
      (set_volume-IsValid ctx _ _ v) v

set_mute_handler-IsValid :
    (ctx : ServerContext) (header : Header) (payload : Option Bytes)
    → IsValid ctx
    → IsValid (handle_set_mute ctx header payload).ctx
unfolding handle_set_mute
set_mute_handler-IsValid ctx header payload v =
    if_either (λ (o : Outcome). IsValid o.ctx) (has_payload 5 header payload) _ _
      (set_mute-IsValid ctx _ _ v) v

-- The two commands that only read.
get_volume_handler_ctx :
    (ctx : ServerContext) (header : Header) (payload : Option Bytes)
    → (handle_get_volume ctx header payload).ctx ≡ ctx
unfolding handle_get_volume
get_volume_handler_ctx ctx header payload = ground arith

list_handler_ctx : (ctx : ServerContext) (mem : Memory) → (handle_list_clients ctx mem).ctx ≡ ctx
unfolding handle_list_clients
list_handler_ctx ctx mem = ground arith

pub dispatch-IsValid :
    (ctx : ServerContext) (mem : Memory) (now : ℕ) (header : Header) (payload : Option Bytes)
    → IsValid ctx
    → IsValid (dispatch ctx mem now header payload).ctx
dispatch-IsValid ctx mem now header payload v =
    dispatch_each (λ (o : Outcome). IsValid o.ctx) ctx mem now header payload
      (register_handler-IsValid ctx mem now header payload v)
      (unregister_handler-IsValid ctx header payload v)
      (subst IsValid (sym (get_volume_handler_ctx ctx header payload)) v)
      (set_volume_handler-IsValid ctx header payload v)
      (set_mute_handler-IsValid ctx header payload v)
      (subst IsValid (sym (list_handler_ctx ctx mem)) v) (λ status. v)

-- No message breaks the registry, whatever bytes it is made of and whichever allocation fails.
pub handle_client_message-IsValid :
    (s : Server) (mem : Memory) (now fd : ℕ) (message : Message)
    → IsValid s.ctx
    → IsValid (handle_client_message s mem now fd message).0.ctx
unfolding handle_client_message read_message drop_client read_payload answer_message
handle_client_message-IsValid s mem now fd message v = elim (Option-cases message.header_bytes) [
  | inl closed ↦ ground arith
  | inr (bytes, e) ↦ ground (
    arith,
    dispatch-IsValid s.ctx mem now (decode_header bytes) none v,
    dispatch-IsValid s.ctx mem now (decode_header bytes) message.payload v,
  )
]

-- One message, and nothing else, to the sender: a response of this version with this request id,
-- and with the wanted status, if there is one, at the start of its payload.
pub record IsReply (fd id : ℕ) (wanted : Option ℕ) (effects : List Effect) : Type 0 where
  pub bytes : Bytes
  pub sent : effects ≡ send_bytes fd bytes ∷ []
  pub magic : (decode_header bytes).magic ≡ 0x4149_5043
  pub version : (decode_header bytes).version ≡ 1
  pub command : (decode_header bytes).command ≡ Command.response
  pub request_id : (decode_header bytes).request_id ≡ id
  pub status : IsStatus wanted (decode_le 4 (drop header_size bytes))

reply_header_read :
    (mem : Memory) (id status : ℕ) (response_data : Option Bytes) (data_len : ℕ)
    → id < 2 ^ 32
    → decode_header (reply_bytes mem id status response_data data_len)
      ≡ ipc_init_header Command.response (add32 response_size data_len) id
unfolding reply_bytes ipc_init_header
reply_header_read mem id status response_data data_len small =
    decode-encode_header (ipc_init_header Command.response (add32 response_size data_len) id) _
      (record {
        magic = ground arith;
        version = ground arith;
        command = ground arith;
        payload_len = ground arith;
        request_id = ground (arith, small);
      })

reply_status_read :
    (mem : Memory) (id status : ℕ) (response_data : Option Bytes) (data_len : ℕ)
    → status < 2 ^ 32
    → decode_le 4 (drop header_size (reply_bytes mem id status response_data data_len)) ≡ status
unfolding reply_bytes encode_header encode_response encode_le decode_le
reply_status_read mem id status response_data data_len small = omega (arith, small)

send_response-IsReply :
    (mem : Memory) (fd id status : ℕ) (response_data : Option Bytes) (data_len : ℕ)
    (wanted : Option ℕ)
    → mem.reply ≡ true
    → id < 2 ^ 32
    → IsStatus wanted status
    → ((n : ℕ) → wanted ≡ some n → n < 2 ^ 32)
    → IsReply fd id wanted (send_response mem fd id status response_data data_len)
unfolding send_response ipc_init_header
send_response-IsReply mem fd id status response_data data_len wanted r small told fits =
    let read = reply_header_read mem id status response_data data_len small in
    record {
      bytes = reply_bytes mem id status response_data data_len;
      sent = rw r;
      magic = ap (λ h. h.magic) read;
      version = ap (λ h. h.version) read;
      command = ap (λ h. h.command) read;
      request_id = ap (λ h. h.request_id) read;
      status = elim told [
        | inl any ↦ inl any
        | inr same ↦ inr (
            same
            ∙ ap some
                (sym (reply_status_read mem id status response_data data_len (fits status same))))
      ];
    }

-- The status behind the reading of the payload: it may not come whole, or find no memory.
abbrev pub payload_status : Server → Memory → Header → Option Bytes → Option ℕ
payload_status s mem header payload =
    if header.payload_len == 0
    then wanted_status s.ctx mem header none
    else if not mem.payload
    then some IpcStatus.internal_error
    else if came payload header.payload_len
    then wanted_status s.ctx mem header payload
    else some IpcStatus.payload_too_large

answer-IsReply :
    (s : Server) (mem : Memory) (now fd : ℕ) (header : Header) (payload : Option Bytes)
    → mem.reply ≡ true
    → header.request_id < 2 ^ 32
    → IsReply fd header.request_id
        (wanted_status s.ctx mem header payload)
        (answer_message s mem now fd header payload).1
unfolding answer_message
answer-IsReply s mem now fd header payload r small =
    let o = dispatch s.ctx mem now header payload in
    send_response-IsReply mem fd header.request_id o.status o.response_data o.response_len _ r small
      (dispatch-IsStatus s.ctx mem now header payload) (wanted_small s.ctx mem header payload)

fixed-IsReply :
    (mem : Memory) (fd id status : ℕ)
    → mem.reply ≡ true
    → id < 2 ^ 32
    → status < 2 ^ 32
    → IsReply fd id (some status) (send_response mem fd id status none 0)
fixed-IsReply mem fd id status r small fits =
    send_response-IsReply mem fd id status none 0 (some status) r small (inr refl)
      (λ n e. ground (arith, e, fits))

read_payload-IsReply :
    (s : Server) (mem : Memory) (now fd : ℕ) (header : Header) (payload : Option Bytes)
    → mem.reply ≡ true
    → header.request_id < 2 ^ 32
    → IsReply fd header.request_id
        (payload_status s mem header payload)
        (read_payload s mem now fd header payload).1
unfolding read_payload
read_payload-IsReply s mem now fd header payload r small =
    elim (Bool-cases (header.payload_len == 0)) [
      | inl bare ↦ rw bare (answer-IsReply s mem now fd header none r small)
      | inr behind ↦ elim (Bool-cases (not mem.payload)) [
        | inl full ↦
            rw (behind, full)
              (fixed-IsReply mem fd header.request_id IpcStatus.internal_error r small
                (omega arith))
        | inr room ↦ elim (Bool-cases (came payload header.payload_len)) [
          | inl whole ↦
              rw (behind, room, whole) (answer-IsReply s mem now fd header payload r small)
          | inr short ↦
              rw (behind, room, short)
                (fixed-IsReply mem fd header.request_id IpcStatus.payload_too_large r small
                  (omega arith))
        ]
      ]
    ]

-- A header of the right size with the right fields.
abbrev pub is_well_formed : Bytes → Bool
is_well_formed bytes = length bytes == header_size && ipc_validate_header (decode_header bytes)

-- The status of the reply to a message.
abbrev pub message_status : Server → Memory → Bytes → Option Bytes → Option ℕ
message_status s mem bytes payload =
    if is_well_formed bytes
    then payload_status s mem (decode_header bytes) payload
    else some IpcStatus.invalid_header

read_message-IsReply :
    (s : Server) (mem : Memory) (now fd : ℕ) (bytes : Bytes) (payload : Option Bytes)
    → mem.reply ≡ true
    → (decode_header bytes).request_id < 2 ^ 32
    → IsReply fd
        (if is_well_formed bytes then (decode_header bytes).request_id else 0)
        (message_status s mem bytes payload)
        (read_message s mem now fd bytes payload).1
unfolding read_message
read_message-IsReply s mem now fd bytes payload r small =
    let refused = fixed-IsReply mem fd 0 IpcStatus.invalid_header r (omega arith) (omega arith) in
    elim (Bool-cases (length bytes == header_size)) [
      | inl sized ↦ elim (Bool-cases (ipc_validate_header (decode_header bytes))) [
        | inl valid ↦
            rw (sized, valid)
              (read_payload-IsReply s mem now fd (decode_header bytes) payload r small)
        | inr bad ↦ rw (sized, bad) refused
      ]
      | inr short ↦ rw short refused
    ]

-- Every message that is not the end of its connection is answered by exactly one message, to its
-- sender, if that can be allocated: a response whose header, as it is read back from its bytes, has
-- the magic number, the version, and the request id of the message if its header is well-formed,
-- and else the id 0. Its status is that of an invalid header; or says that the payload found no
-- memory or did not come whole; or that the command is unknown or its payload too short; or, for
-- each command but the listing, whether the process of the payload is registered (and for a
-- registration whether there is no memory). The id fits its four bytes.
pub handle_client_message_replies :
    (s : Server) (mem : Memory) (now fd : ℕ) (message : Message) (bytes : Bytes)
    → message.header_bytes ≡ some bytes
    → mem.reply ≡ true
    → (decode_header bytes).request_id < 2 ^ 32
    → IsReply fd
        (if is_well_formed bytes then (decode_header bytes).request_id else 0)
        (message_status s mem bytes message.payload)
        (handle_client_message s mem now fd message).1
unfolding handle_client_message
handle_client_message_replies s mem now fd message bytes e r small =
    subst
      (λ (out : Server × List Effect).
        IsReply fd (if is_well_formed bytes then (decode_header bytes).request_id else 0)
          (message_status s mem bytes message.payload) out.1)
      (sym step) (read_message-IsReply s mem now fd bytes message.payload r small)
  where
    step :
        handle_client_message s mem now fd message ≡ read_message s mem now fd bytes message.payload
    step = ground arith
