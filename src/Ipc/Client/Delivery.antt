-- ===== src/Ipc/Client/Delivery.antt =====
-- What a connected client receives when a message comes through whole.
use audioctl.Base.{List, ◌∷◌, ◌++◌, ◌⊎◌, ℕ, ◌≤◌, ◌<◌, ◌≡◌, true, Option, none, some, length, arith}
use audioctl.Base.Bytes.{Bytes}
use audioctl.Ipc.Protocol.{Header, encode_header, decode_header, ipc_validate_header}
use audioctl.Ipc.Protocol.Roundtrip.{length-encode_header}
use audioctl.Ipc.Client.{
  payload_sent, ClientContext, Exchange, ipc_client_is_connected, ipc_client_send, ipc_client_recv,
  recv_payload, ipc_client_send_sync,
}

-- The message with this header and payload stands ready to be read.
pub record Delivers (x : Exchange) (h : Header) (payload : Bytes) : Type 0 where
  pub came : x.header_bytes ≡ some (encode_header h)
  pub read : decode_header (encode_header h) ≡ h
  pub valid : ipc_validate_header h ≡ true
  pub whole : x.payload ≡ some payload
  pub some_bytes : 0 < h.payload_len
  pub size : length payload ≡ h.payload_len

received :
    (ctx : ClientContext) (room : ℕ) (x : Exchange) (h : Header) (payload : Bytes)
    → ipc_client_is_connected ctx ≡ true
    → Delivers x h payload
    → h.payload_len ≤ room
    → (ipc_client_recv ctx room x).0 ≡ some (h, payload)
unfolding ipc_client_recv recv_payload
received ctx room x h payload on d few =
    rw (on, d.came, length-encode_header h, d.read, d.valid, d.whole)
      (ground (arith, d.size, d.some_bytes))

-- The client behind a message that was sent whole.
abbrev pub after_send : ClientContext → Header → Option Bytes → Exchange → ClientContext
after_send ctx request payload x = record ctx {
  last_activity = x.sent_at;
  sent = ctx.sent ++ (encode_header request ∷ payload_sent request.payload_len payload);
}

sent_on :
    (ctx : ClientContext) (request : Header) (payload : Option Bytes) (x : Exchange)
    → ipc_client_is_connected ctx ≡ true
    → x.header_sent ≡ true
    → (payload ≡ none) ⊎ (x.payload_sent ≡ true)
    → ipc_client_send ctx request payload x ≡ (true, after_send ctx request payload x)
unfolding ipc_client_send
sent_on ctx request payload x on sent behind = ground arith

still_on :
    (c : ClientContext) (t : ℕ) (bytes : List Bytes)
    → ipc_client_is_connected c ≡ true
    → ipc_client_is_connected (record c { last_activity = t; sent = bytes }) ≡ true
unfolding ipc_client_is_connected
still_on c t bytes on = on

pub exchanged :
    (ctx : ClientContext) (request : Header) (asked : Option Bytes) (room : ℕ) (x : Exchange)
    (h : Header) (payload : Bytes)
    → ipc_client_is_connected ctx ≡ true
    → x.header_sent ≡ true
    → (asked ≡ none) ⊎ (x.payload_sent ≡ true)
    → Delivers x h payload
    → h.payload_len ≤ room
    → (ipc_client_send_sync ctx request asked room x).0 ≡ some (h, payload)
unfolding ipc_client_send_sync
exchanged ctx request asked room x h payload on sent behind d few =
    rw (sent_on ctx request asked x on sent behind) (
      received (after_send ctx request asked x) room x h payload (still_on ctx x.sent_at _ on) d
        few)

-- What has been received does not change what was sent.
received_sent :
    (ctx : ClientContext) (room : ℕ) (x : Exchange) → (ipc_client_recv ctx room x).1.sent ≡ ctx.sent
unfolding ipc_client_recv recv_payload
received_sent ctx room x = ground arith

-- A message that is sent whole has been given to the socket, whatever comes back.
pub exchange_sent :
    (ctx : ClientContext) (request : Header) (asked : Option Bytes) (room : ℕ) (x : Exchange)
    → ipc_client_is_connected ctx ≡ true
    → x.header_sent ≡ true
    → (asked ≡ none) ⊎ (x.payload_sent ≡ true)
    → (ipc_client_send_sync ctx request asked room x).1.sent
      ≡ ctx.sent ++ (encode_header request ∷ payload_sent request.payload_len asked)
unfolding ipc_client_send_sync
exchange_sent ctx request asked room x on sent behind =
    rw (sent_on ctx request asked x on sent behind)
      (received_sent (after_send ctx request asked x) room x)
