-- ===== src/Ipc/Interop/EndToEnd.antt =====
-- A request of src/ipc/ipc_client.c, carried out by src/ipc/ipc_server.c and answered.
use audioctl.Base.{
  take_all, drop-append, ℕ, ◌+◌, ◌^◌, ◌≤◌, ◌<◌, ◌≡◌, refl, sym, ap, ◌∙◌, inr, Bool, true, Option,
  none, some, List, [], ◌∷◌, ◌++◌, length, take, drop, ◌==◌, arith,
}
use mathlib.Core.Path.{subst}
use audioctl.Base.Float.{Float32}
use audioctl.Base.Bytes.{Bytes, encode_le, decode_le}
use audioctl.Ipc.Protocol.{
  Header, header_size, encode_header, ipc_init_header, encode_response, response_size,
}
use audioctl.Ipc.Protocol.Command
use audioctl.Ipc.Protocol.IpcStatus
use audioctl.Ipc.Registry.{ServerContext}
use audioctl.Ipc.Registry.Invariant.{IsValid}
use audioctl.Ipc.Registry.Refine.{
  Request, register, unregister, set_volume, set_mute, apply, answer, after, mixer_of,
  apply_refines,
}
use audioctl.Ipc.Server.Reply.{Memory, Effect, send_bytes, reply_body}
use audioctl.Ipc.Server.Dispatch.{Outcome}
use audioctl.Ipc.Server.{Server, Message, handle_client_message}
use audioctl.Ipc.Client.{ClientContext, Exchange, ipc_client_is_connected, payload_sent}
use audioctl.Ipc.Client.Requests.{
  ask, is_ok, register_payload, ipc_client_register_app, ipc_client_unregister_app,
  ipc_client_set_app_volume, ipc_client_set_app_mute,
}
use audioctl.Ipc.Client.Delivery.{Delivers, exchanged, exchange_sent}
use audioctl.Ipc.Interop.Reply.{
  reply_of, reply_header, reply_of-Delivers, drop_reply, reply_header_command,
}
use audioctl.Ipc.Interop.Carried.{
  IsSendable, command_of, message_of, outcome_of, payload_of, payload_len, request_carried_out,
  status_of,
}

-- The client's function for a request, whose buffer is allocated.
abbrev pub issue : Request → ClientContext → Exchange → Bool × ClientContext
issue (register pid volume muted name) c x = ipc_client_register_app c pid name volume muted true x
issue (unregister pid) c x = ipc_client_unregister_app c pid x
issue (set_volume pid volume) c x = ipc_client_set_app_volume c pid volume x
issue (set_mute pid muted) c x = ipc_client_set_app_mute c pid muted x

issue-ask :
    (r : Request) (c : ClientContext) (x : Exchange)
    → issue r c x ≡ ask c (command_of r) (some (payload_of r)) (length (payload_of r)) x
unfolding ipc_client_register_app ipc_client_unregister_app ipc_client_set_app_volume
    ipc_client_set_app_mute encode_le
issue-ask (register pid volume muted name) c x =
    ap (λ n. ask c Command.register (some (register_payload pid volume muted name)) n x)
      (omega arith)
issue-ask (unregister pid) c x = refl
issue-ask (set_volume pid volume) c x = refl
issue-ask (set_mute pid muted) c x = refl

status_small : (r : Request) (m : ℕ → Option (Float32 × Bool)) → status_of r (answer r m) < 2 ^ 32
status_small (register pid volume muted name) m = ground arith
status_small (unregister pid) m = ground arith
status_small (set_volume pid volume) m = ground arith
status_small (set_mute pid muted) m = ground arith

status_ok : (r : Request) (result : ℕ) → (status_of r result == IpcStatus.ok) ≡ (result == 0)
status_ok (register pid volume muted name) result = refl
status_ok (unregister pid) result = ground arith
status_ok (set_volume pid volume) result = ground arith
status_ok (set_mute pid muted) result = ground arith

status_lt :
    (r : Request) (now : ℕ) (ctx : ServerContext)
    → IsValid ctx
    → status_of r (apply now r ctx).0 < 2 ^ 32
status_lt r now ctx v = rw (apply_refines now r ctx v).0 (status_small r (mixer_of ctx))

response_status :
    (status len : ℕ) (body : Bytes)
    → status < 2 ^ 32
    → decode_le 4 (encode_response status len ++ body) ≡ status
unfolding encode_response encode_le decode_le
response_status status len body small = omega arith

asked :
    (c : ClientContext) (command : ℕ) (payload : Bytes) (len : ℕ) (x : Exchange) (h : Header)
    (bytes : Bytes)
    → ipc_client_is_connected c ≡ true
    → x.header_sent ≡ true
    → x.payload_sent ≡ true
    → Delivers x h bytes
    → h.payload_len ≤ response_size
    → (ask c command (some payload) len x).0 ≡ is_ok h bytes
unfolding ask
asked c command payload len x h bytes on sent behind d few =
    rw
      (
        on,
        exchanged c (ipc_init_header command len 1) (some payload) response_size x h bytes on sent
            (inr behind) d few,
      )
      refl

-- The client's function is true exactly when the request has succeeded on the registry.
pub issue_agrees :
    (r : Request) (ctx : ServerContext) (mem : Memory) (now : ℕ) (c : ClientContext) (x : Exchange)
    → IsValid ctx
    → ipc_client_is_connected c ≡ true
    → x.header_sent ≡ true
    → x.payload_sent ≡ true
    → x.header_bytes ≡ some (take header_size (reply_of mem 1 (outcome_of now r ctx)))
    → x.payload ≡ some (drop header_size (reply_of mem 1 (outcome_of now r ctx)))
    → (issue r c x).0 ≡ ((apply now r ctx).0 == 0)
issue_agrees r ctx mem now c x v on sent behind came whole =
    ap (λ (out : Bool × ClientContext). out.0) (issue-ask r c x)
    ∙ asked c (command_of r) (payload_of r) (length (payload_of r)) x (reply_header 1 0)
        (drop header_size (reply_of mem 1 o)) on sent behind delivered.0
        (omega (arith, delivered.1))
    ∙ rw (reply_header_command 1 0, drop_reply mem 1 o, reply_status)
        (status_ok r (apply now r ctx).0)
  where
    o : Outcome
    o = outcome_of now r ctx

    delivered :
        Delivers x (reply_header 1 0) (drop header_size (reply_of mem 1 o))
        × ((reply_header 1 0).payload_len ≡ 8 + 0)
    delivered = reply_of-Delivers mem 1 o x (omega arith) (omega arith) refl came whole

    reply_status : decode_le 4 (encode_response o.status 0 ++ reply_body mem none 0) ≡ o.status
    reply_status = response_status o.status 0 (reply_body mem none 0) (status_lt r now ctx v)

-- What a client has given to the socket since some time, as the server's two reads.
abbrev pub sent_message : List Bytes → Message
sent_message [] = record { header_bytes = none; payload = none }
sent_message (header ∷ []) = record { header_bytes = some header; payload = none }
sent_message (header ∷ payload ∷ more) = record {
  header_bytes = some header;
  payload = some payload;
}

-- The message that the client's function for a request sends.
abbrev pub issued : Request → ClientContext → Exchange → Message
issued r c x = sent_message (drop (length c.sent) (issue r c x).1.sent)

payload_whole :
    (payload : Bytes)
    → 4 ≤ length payload
    → payload_sent (length payload) (some payload) ≡ payload ∷ []
payload_whole [] long = absurd (omega (arith, long))
payload_whole (b ∷ bytes) long =
    rw (take_all (length (b ∷ bytes)) (b ∷ bytes) (omega arith)) (ground arith)

asked_sent :
    (c : ClientContext) (command : ℕ) (payload : Bytes) (x : Exchange)
    → ipc_client_is_connected c ≡ true
    → x.header_sent ≡ true
    → x.payload_sent ≡ true
    → 4 ≤ length payload
    → (ask c command (some payload) (length payload) x).1.sent
      ≡ c.sent ++ (encode_header (ipc_init_header command (length payload) 1) ∷ payload ∷ [])
unfolding ask ipc_init_header
asked_sent c command payload x on sent whole long =
    rw on (
      exchange_sent c (ipc_init_header command (length payload) 1) (some payload) response_size x on
        sent (inr whole))
    ∙ ap (λ bytes. c.sent ++ (encode_header (ipc_init_header command (length payload) 1) ∷ bytes))
        (payload_whole payload long)

pub issued_message :
    (r : Request) (c : ClientContext) (x : Exchange)
    → IsSendable r
    → ipc_client_is_connected c ≡ true
    → x.header_sent ≡ true
    → x.payload_sent ≡ true
    → issued r c x ≡ message_of r
issued_message r c x ok on sent whole =
    ap (λ bytes. sent_message (drop (length c.sent) bytes))
      (ap (λ (out : Bool × ClientContext). out.1.sent) (issue-ask r c x)
        ∙ asked_sent c (command_of r) (payload_of r) x on sent whole (payload_len r ok).1)
    ∙ ap sent_message (drop-append c.sent _)

abbrev sent_first : List Effect → Bytes
sent_first (send_bytes fd bytes ∷ es) = bytes
sent_first es = []

-- A request goes from the client to the server and its reply back: the server handles the very
-- bytes that the client's function has given to its socket. Afterwards the volumes and the mute
-- states that the server's registry tells are those that the request makes of the ones before, the
-- registry is valid, and the client's function is true exactly when the request is one that those
-- before allow. The fields of the request fit their types and its payload is within the limit, the
-- server's registry is valid, its allocations succeed, the client is connected, and the message and
-- the one that the server sends back come through whole.
pub request_end_to_end :
    (r : Request) (s : Server) (mem : Memory) (now fd : ℕ) (reply : Bytes) (c : ClientContext)
    (x : Exchange)
    → IsSendable r
    → IsValid s.ctx
    → mem.entry ≡ true
    → mem.payload ≡ true
    → mem.reply ≡ true
    → ipc_client_is_connected c ≡ true
    → x.header_sent ≡ true
    → x.payload_sent ≡ true
    → (handle_client_message s mem now fd (issued r c x)).1 ≡ send_bytes fd reply ∷ []
    → x.header_bytes ≡ some (take header_size reply)
    → x.payload ≡ some (drop header_size reply)
    → let s' = (handle_client_message s mem now fd (issued r c x)).0 in
      (mixer_of s'.ctx ≡ after r (mixer_of s.ctx))
      × IsValid s'.ctx
      × ((issue r c x).0 ≡ (answer r (mixer_of s.ctx) == 0))
request_end_to_end r s mem now fd reply c x ok v entry payload room on sent whole_sent replied came
      whole =
    (
      ap (λ (out : Server × List Effect). mixer_of out.0.ctx) done ∙ mixed.1,
      subst (λ (out : Server × List Effect). IsValid out.0.ctx) (sym done) mixed.2,
      issue_agrees r s.ctx mem now c x v on sent whole_sent
            (came ∙ ap (λ m. some (take header_size m)) same)
            (whole ∙ ap (λ m. some (drop header_size m)) same)
          ∙ ap (λ n. n == 0) mixed.0,
    )
  where
    mixed :
        ((apply now r s.ctx).0 ≡ answer r (mixer_of s.ctx))
        × (mixer_of (apply now r s.ctx).1 ≡ after r (mixer_of s.ctx))
        × IsValid (apply now r s.ctx).1
    mixed = apply_refines now r s.ctx v

    done : handle_client_message s mem now fd (issued r c x) ≡ (
      record s { ctx = (apply now r s.ctx).1 },
      send_bytes fd (reply_of mem 1 (outcome_of now r s.ctx)) ∷ [],
    )
    done =
        ap (handle_client_message s mem now fd) (issued_message r c x ok on sent whole_sent)
        ∙ request_carried_out r s mem now fd ok entry payload room

    same : reply ≡ reply_of mem 1 (outcome_of now r s.ctx)
    same = ap sent_first (sym replied ∙ ap (λ (out : Server × List Effect). out.1) done)
