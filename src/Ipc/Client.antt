-- ===== src/Ipc/Client.antt =====
-- The IPC client (src/ipc/ipc_client.c): the connection, the exchange of a request and its
-- response, the volume cache and the reconnection. What the socket answers to one exchange, and the
-- clock, are parameters.
pub mod Requests
pub mod Delivery
pub mod Cache
pub mod Reconnect
use audioctl.Base.{
  ℕ, ◌+◌, ◌-◌, ◌*◌, ◌%◌, ◌^◌, Bool, true, false, not, ◌&&◌, ◌||◌, Option, none, some, List, [], ◌∷◌,
  length, take, ◌++◌, ◌==◌, ltb, leb, if◌then◌else◌,
}
use audioctl.Base.Float.{Float32, f_zero, f_one}
use audioctl.Base.Bytes.{Bytes}
use audioctl.Ipc.Protocol.{
  Header, header_size, encode_header, decode_header, ipc_validate_header, minus_one,
}

-- `IPCClientContext`; `none` is the descriptor -1. The last field is not in the code: it is what the
-- socket was given by the sends of the messages that were sent whole, the latest last.
pub record ClientContext : Type 0 where
  pub fd : Option ℕ
  pub connected : Bool
  pub last_activity : ℕ
  pub reconnect_attempts : ℕ
  pub cached_pid : ℕ
  pub cached_volume : Float32
  pub cached_muted : Bool
  pub cache_timestamp : ℕ
  pub cache_valid : Bool
  pub sent : List Bytes

unfoldable pub ipc_client_init : ClientContext
ipc_client_init = record {
  fd = none;
  connected = false;
  last_activity = 0;
  reconnect_attempts = 0;
  cached_pid = minus_one;
  cached_volume = f_one;
  cached_muted = false;
  cache_timestamp = 0;
  cache_valid = false;
  sent = [];
}

unfoldable pub ipc_client_disconnect : ClientContext → ClientContext
ipc_client_disconnect ctx = record ctx { fd = none; connected = false }

-- After a disconnection every field is set anew, as by `ipc_client_init`.
unfoldable pub ipc_client_cleanup : ClientContext → ClientContext
unfolding ipc_client_init ipc_client_disconnect
ipc_client_cleanup ctx = record (ipc_client_disconnect ctx) {
  fd = none;
  connected = false;
  last_activity = 0;
  reconnect_attempts = 0;
  cached_pid = minus_one;
  cached_volume = f_one;
  cached_muted = false;
  cache_timestamp = 0;
  cache_valid = false;
}

unfoldable pub ipc_client_is_connected : ClientContext → Bool
ipc_client_is_connected ctx = ctx.connected && elim ctx.fd [ none ↦ false | some _ ↦ true ]

-- The answers to one attempt to connect: whether the path is known and the socket's file is there,
-- the new descriptor, whether the timeouts can be set, whether `connect` succeeds or is in
-- progress, and the time.
pub record Attempt : Type 0 where
  pub path_known : Bool
  pub file_exists : Bool
  pub socket : Option ℕ
  pub timeout_set : Bool
  pub connecting : Bool
  pub now : ℕ

-- From the creation of the socket on.
unfoldable pub open_socket : ClientContext → Attempt → Bool × ClientContext
open_socket ctx a = elim a.socket [
  | none ↦ (false, record ctx { fd = none })
  | some fd ↦ if not a.timeout_set || not a.connecting then (false, record ctx { fd = none }) else (
    true,
    record ctx { fd = some fd; connected = true; last_activity = a.now; reconnect_attempts = 0 },
  )
]

-- The flag is true for the result 0.
unfoldable pub ipc_client_connect : ClientContext → Attempt → Bool × ClientContext
unfolding open_socket ipc_client_disconnect
ipc_client_connect ctx a =
    let ctx' = if ctx.connected then ipc_client_disconnect ctx else ctx in
    if not a.path_known || not a.file_exists then (false, ctx') else open_socket ctx' a

-- What the socket does in one exchange: whether the two parts of the request are sent whole, the
-- two reads of the response, `none` for a result of 0 or -1, and the times after each half.
pub record Exchange : Type 0 where
  pub header_sent : Bool
  pub payload_sent : Bool
  pub header_bytes : Option Bytes
  pub payload : Option Bytes
  pub sent_at : ℕ
  pub received_at : ℕ

-- What the socket is given for a payload: as many bytes as the header says, and nothing for a null
-- pointer or no bytes.
abbrev pub payload_sent : ℕ → Option Bytes → List Bytes
payload_sent len none = []
payload_sent len (some bytes) = if len == 0 then [] else take len bytes ∷ []

-- The second argument is the payload, `none` for a null pointer, whose length stands in the header.
unfoldable pub ipc_client_send :
    ClientContext → Header → Option Bytes → Exchange → Bool × ClientContext
unfolding ipc_client_is_connected
ipc_client_send ctx header payload x =
    if not (ipc_client_is_connected ctx)
    then (false, ctx)
    else if not x.header_sent
    then (false, record ctx { connected = false })
    else if (elim payload [ none ↦ false | some _ ↦ not (header.payload_len == 0) ])
        && not x.payload_sent
    then (false, record ctx { connected = false })
    else (
      true,
      record ctx {
        last_activity = x.sent_at;
        sent = ctx.sent ++ (encode_header header ∷ payload_sent header.payload_len payload);
      },
    )

abbrev pub came : Option Bytes → ℕ → Bool
came none n = false
came (some bytes) n = length bytes == n

-- The read of the payload into a buffer of `payload_size` bytes: the bytes that came, or `none`
-- for the result -1.
unfoldable pub recv_payload :
    ClientContext → Header → ℕ → Exchange → Option (Header × Bytes) × ClientContext
recv_payload ctx header payload_size x =
    if header.payload_len == 0
    then (some (header, []), record ctx { last_activity = x.received_at })
    else if ltb payload_size header.payload_len
    then (none, ctx)
    else elim x.payload [
      | none ↦ (none, record ctx { connected = false })
      | some bytes ↦
          if length bytes == header.payload_len
          then (some (header, bytes), record ctx { last_activity = x.received_at })
          else (none, record ctx { connected = false })
    ]

-- The callers give a payload buffer.
unfoldable pub ipc_client_recv :
    ClientContext → ℕ → Exchange → Option (Header × Bytes) × ClientContext
unfolding ipc_client_is_connected
ipc_client_recv ctx payload_size x =
    if not (ipc_client_is_connected ctx) then (none, ctx) else elim x.header_bytes [
      | none ↦ (none, record ctx { connected = false })
      | some bytes ↦
          if not (length bytes == header_size) || not (ipc_validate_header (decode_header bytes))
          then (none, ctx)
          else recv_payload ctx (decode_header bytes) payload_size x
    ]

unfoldable pub ipc_client_send_sync :
    ClientContext → Header → Option Bytes → ℕ → Exchange → Option (Header × Bytes) × ClientContext
ipc_client_send_sync ctx request payload response_size x =
    let (sent, ctx') = ipc_client_send ctx request payload x in
    if sent then ipc_client_recv ctx' response_size x else (none, ctx')
