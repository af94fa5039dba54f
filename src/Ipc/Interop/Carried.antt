-- ===== src/Ipc/Interop/Carried.antt =====
-- A request of src/ipc/ipc_client.c as src/ipc/ipc_server.c reads it and carries it out.
use audioctl.Base.{
  ℕ, ◌+◌, ◌^◌, ◌≤◌, ◌<◌, ◌≡◌, refl, sym, ap, ◌∙◌, Bool, true, false, some, [], ◌∷◌, ◌++◌, length,
  drop, get_or, ◌==◌, if◌then◌else◌, append-nil, arith,
}
use audioctl.Base.Bytes.{Bytes, encode_le, decode_le, decode_le-encode_le}
use audioctl.Ipc.Protocol.{
  Header, ipc_init_header, encode_header, decode_header, ipc_validate_header, is_command,
  byte_of_bool, bool_of_byte, max_payload_size,
}
use audioctl.Ipc.Protocol.Command
use audioctl.Ipc.Protocol.IpcStatus
use audioctl.Ipc.Protocol.Roundtrip.{decode-encode_header, length-encode_header, IsWide}
use audioctl.Ipc.Registry.{ServerContext}
use audioctl.Ipc.Registry.Refine.{Request, register, unregister, set_volume, set_mute, apply}
use audioctl.Ipc.Server.Reply.{Memory, send_bytes, send_response}
use audioctl.Ipc.Server.Dispatch.{
  Outcome, plain, dispatch, handle_register, handle_unregister, handle_set_volume, handle_set_mute,
}
use audioctl.Ipc.Server.{
  Server, Message, answer_message, read_payload, read_message, handle_client_message,
}
use audioctl.Ipc.Client.Requests.{register_payload, set_volume_payload, set_mute_payload}
use audioctl.Ipc.Interop.Reply.{reply_of}

-- The fields fit their C types, and the payload is within the protocol's limit.
unfoldable pub IsSendable : Request → Type 0
IsSendable (register pid volume muted name) =
    (pid < 2 ^ 32) × (volume < 2 ^ 32) × (9 + length name ≤ max_payload_size)
IsSendable (unregister pid) = pid < 2 ^ 32
IsSendable (set_volume pid volume) = (pid < 2 ^ 32) × (volume < 2 ^ 32)
IsSendable (set_mute pid muted) = pid < 2 ^ 32

abbrev pub command_of : Request → ℕ
command_of (register pid volume muted name) = Command.register
command_of (unregister pid) = Command.unregister
command_of (set_volume pid volume) = Command.set_volume
command_of (set_mute pid muted) = Command.set_mute

abbrev pub payload_of : Request → Bytes
payload_of (register pid volume muted name) = register_payload pid volume muted name
payload_of (unregister pid) = encode_le 4 pid
payload_of (set_volume pid volume) = set_volume_payload pid volume
payload_of (set_mute pid muted) = set_mute_payload pid muted

-- The request's message.
abbrev pub header_of : Request → Header
header_of r = ipc_init_header (command_of r) (length (payload_of r)) 1

-- The status that the server reports for the result of a request.
abbrev pub status_of : Request → ℕ → ℕ
status_of (register pid volume muted name) result = result
status_of (unregister pid) result = if result == 0 then result else IpcStatus.client_not_found
status_of (set_volume pid volume) result =
    if result == 0 then result else IpcStatus.client_not_found
status_of (set_mute pid muted) result = if result == 0 then result else IpcStatus.client_not_found

-- What the server reads in the payloads.
drop_4 : (x : ℕ) (rest : Bytes) → drop 4 (encode_le 4 x ++ rest) ≡ rest
unfolding encode_le
drop_4 x rest = refl

behind_8 :
    (x y b : ℕ) (rest : Bytes)
    → let bytes = encode_le 4 x ++ (encode_le 4 y ++ (b ∷ rest)) in
      (get_or bytes 8 0 ≡ b) × (drop 9 bytes ≡ rest) × (length bytes ≡ 9 + length rest)
unfolding encode_le
behind_8 x y b rest = (refl, refl, omega arith)

behind_4 :
    (x b : ℕ) → let bytes = encode_le 4 x ++ (b ∷ []) in (get_or bytes 4 0 ≡ b) × (length bytes ≡ 5)
unfolding encode_le
behind_4 x b = (refl, refl)

length_8 : (x y : ℕ) → length (encode_le 4 x ++ encode_le 4 y) ≡ 8
unfolding encode_le
length_8 x y = refl

length_4 : (x : ℕ) → length (encode_le 4 x) ≡ 4
unfolding encode_le
length_4 x = refl

bool_byte : (b : Bool) → bool_of_byte (byte_of_bool b) ≡ b
bool_byte true = refl
bool_byte false = refl

decode_4 : (x : ℕ) → x < 2 ^ 32 → decode_le 4 (encode_le 4 x) ≡ x
unfolding encode_le decode_le
decode_4 x small = omega arith

dispatched :
    (r : Request) (ctx : ServerContext) (mem : Memory) (now : ℕ)
    → IsSendable r
    → mem.entry ≡ true
    → dispatch ctx mem now (header_of r) (some (payload_of r))
      ≡ plain (apply now r ctx).1 (status_of r (apply now r ctx).0)
unfolding IsSendable dispatch handle_register handle_unregister handle_set_volume handle_set_mute
    ipc_init_header
dispatched (register pid volume muted name) ctx mem now ok entry =
    let (byte, rest, len) = behind_8 pid volume (byte_of_bool muted) name in
    rw
      (
        decode_le-encode_le 4 pid (encode_le 4 volume ++ (byte_of_bool muted ∷ name)) ok.0,
        drop_4 pid (encode_le 4 volume ++ (byte_of_bool muted ∷ name)),
        decode_le-encode_le 4 volume (byte_of_bool muted ∷ name) ok.1,
        byte,
        rest,
        len,
        bool_byte muted,
        entry,
      )
      (ground arith)
dispatched (unregister pid) ctx mem now ok entry = rw (length_4 pid, decode_4 pid ok) refl
dispatched (set_volume pid volume) ctx mem now ok entry =
    rw
      (
        decode_le-encode_le 4 pid (encode_le 4 volume) ok.0,
        drop_4 pid (encode_le 4 volume),
        decode_4 volume ok.1,
        length_8 pid volume,
      )
      refl
dispatched (set_mute pid muted) ctx mem now ok entry =
    let (byte, len) = behind_4 pid (byte_of_bool muted) in
    rw (decode_le-encode_le 4 pid (byte_of_bool muted ∷ []) ok, byte, len, bool_byte muted) refl

-- The client's header is one that the server accepts.
pub payload_len :
    (r : Request)
    → IsSendable r
    → length (payload_of r) ≤ max_payload_size × 4 ≤ length (payload_of r)
unfolding IsSendable encode_le
payload_len (register pid volume muted name) ok = ground (arith, ok.2)
payload_len (unregister pid) ok = ground arith
payload_len (set_volume pid volume) ok = ground arith
payload_len (set_mute pid muted) ok = ground arith

header_valid : (r : Request) → IsSendable r → ipc_validate_header (header_of r) ≡ true
unfolding ipc_validate_header ipc_init_header is_command
header_valid (register pid volume muted name) ok =
    ground (arith, payload_len (register pid volume muted name) ok)
header_valid (unregister pid) ok = ground (arith, payload_len (unregister pid) ok)
header_valid (set_volume pid volume) ok = ground (arith, payload_len (set_volume pid volume) ok)
header_valid (set_mute pid muted) ok = ground (arith, payload_len (set_mute pid muted) ok)

command_small : (r : Request) → command_of r < 2 ^ 16
command_small (register pid volume muted name) = omega arith
command_small (unregister pid) = omega arith
command_small (set_volume pid volume) = omega arith
command_small (set_mute pid muted) = omega arith

header_of-IsWide : (r : Request) → IsSendable r → IsWide (header_of r)
unfolding ipc_init_header
header_of-IsWide r ok = record {
  magic = omega arith;
  version = omega arith;
  command = command_small r;
  payload_len = omega (arith, payload_len r ok);
  request_id = omega arith;
}

header_read :
    (r : Request) → IsSendable r → decode_header (encode_header (header_of r)) ≡ header_of r
header_read r ok =
    ap decode_header (sym (append-nil (encode_header (header_of r))))
    ∙ decode-encode_header (header_of r) [] (header_of-IsWide r ok)

-- The two sends of the client as the server's two reads.
abbrev pub message_of : Request → Message
message_of r = record {
  header_bytes = some (encode_header (header_of r));
  payload = some (payload_of r);
}

-- What the server answers to a request on a registry.
abbrev pub outcome_of : ℕ → Request → ServerContext → Outcome
outcome_of now r ctx = plain (apply now r ctx).1 (status_of r (apply now r ctx).0)

-- A well-formed message with a payload comes to the `switch`.
answered :
    (s : Server) (mem : Memory) (now fd : ℕ) (h : Header) (payload : Bytes) (o : Outcome)
    → decode_header (encode_header h) ≡ h
    → ipc_validate_header h ≡ true
    → length payload ≡ h.payload_len
    → 0 < h.payload_len
    → mem.payload ≡ true
    → mem.reply ≡ true
    → dispatch s.ctx mem now h (some payload) ≡ o
    → handle_client_message s mem now fd
        (record { header_bytes = some (encode_header h); payload = some payload })
      ≡ (record s { ctx = o.ctx }, send_bytes fd (reply_of mem h.request_id o) ∷ [])
unfolding handle_client_message read_message read_payload answer_message send_response
answered s mem now fd h payload o read valid size some_bytes room reply done =
    rw (length-encode_header h, read, valid, done) (ground (arith, size, some_bytes, room, reply))

header_payload_len : (r : Request) → (header_of r).payload_len ≡ length (payload_of r)
unfolding ipc_init_header
header_payload_len r = refl

header_request_id : (r : Request) → (header_of r).request_id ≡ 1
unfolding ipc_init_header
header_request_id r = refl

-- A request that the client sends whole is carried out on the registry, and its sender gets one
-- reply, which has the status of the result. The fields of the request fit their types, its payload
-- is within the limit, and the allocations of the server succeed.
pub request_carried_out :
    (r : Request) (s : Server) (mem : Memory) (now fd : ℕ)
    → IsSendable r
    → mem.entry ≡ true
    → mem.payload ≡ true
    → mem.reply ≡ true
    → handle_client_message s mem now fd (message_of r) ≡ (
      record s { ctx = (apply now r s.ctx).1 },
      send_bytes fd (reply_of mem 1 (outcome_of now r s.ctx)) ∷ [],
    )
unfolding ipc_init_header
request_carried_out r s mem now fd ok entry payload reply =
    answered s mem now fd (header_of r) (payload_of r) (outcome_of now r s.ctx) (header_read r ok)
      (header_valid r ok) refl (omega (arith, payload_len r ok)) payload reply
      (dispatched r s.ctx mem now ok entry)
