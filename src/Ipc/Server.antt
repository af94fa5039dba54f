-- ===== src/Ipc/Server.antt =====
-- The IPC server (src/ipc/ipc_server.c): a message from a client, a new connection, the main loop
-- and the clean-up. What the sockets and the kernel queue answer is data; what the server does to
-- its descriptors is a list of effects.
pub mod Reply
pub mod Dispatch
pub mod Status
pub mod Messages
pub mod Loop
pub mod Startup
pub mod Descriptors
use audioctl.Base.{
  ℕ, ◌+◌, Bool, true, false, not, ◌&&◌, ◌||◌, Option, none, some, List, [], ◌∷◌, ◌++◌, length, map,
  ◌==◌, ltb, if◌then◌else◌,
}
use audioctl.Base.Bytes.{Bytes}
use audioctl.Ipc.Protocol.{Header, header_size, decode_header, ipc_validate_header}
use audioctl.Ipc.Protocol.IpcStatus
use audioctl.Ipc.Registry.{ServerContext}
use audioctl.Ipc.Connections.{Connection, add_connection, remove_connection}
use Reply.{Effect, send_bytes, close_fd, kevent_add, kevent_delete, Memory, send_response}
use Dispatch.{Outcome, dispatch}

-- The server's context and `g_connections`.
pub record Server : Type 0 where
  pub ctx : ServerContext
  pub connections : List Connection

-- The two reads of a message: `none` for a result of 0 or -1, else the bytes that came.
pub record Message : Type 0 where
  pub header_bytes : Option Bytes
  pub payload : Option Bytes

-- A connection that is closed or broken.
unfoldable pub drop_client : Server → ℕ → Server × List Effect
drop_client s fd =
    let (conns, found) = remove_connection s.connections fd in
    (
      record s { connections = conns },
      if found then close_fd fd ∷ kevent_delete fd ∷ [] else kevent_delete fd ∷ [],
    )

-- The `switch` and the reply.
unfoldable pub answer_message :
    Server → Memory → ℕ → ℕ → Header → Option Bytes → Server × List Effect
answer_message s mem now fd header payload =
    let out = dispatch s.ctx mem now header payload in
    (
      record s { ctx = out.ctx },
      send_response mem fd header.request_id out.status out.response_data out.response_len,
    )

abbrev pub came : Option Bytes → ℕ → Bool
came none n = false
came (some bytes) n = length bytes == n

-- From the reading of the payload on.
unfoldable pub read_payload : Server → Memory → ℕ → ℕ → Header → Option Bytes → Server × List Effect
read_payload s mem now fd header payload =
    if header.payload_len == 0
    then answer_message s mem now fd header none
    else if not mem.payload
    then (s, send_response mem fd header.request_id IpcStatus.internal_error none 0)
    else if came payload header.payload_len
    then answer_message s mem now fd header payload
    else (s, send_response mem fd header.request_id IpcStatus.payload_too_large none 0)

-- From the test of the header on.
unfoldable pub read_message : Server → Memory → ℕ → ℕ → Bytes → Option Bytes → Server × List Effect
read_message s mem now fd bytes payload =
    let header = decode_header bytes in
    if not (length bytes == header_size) || not (ipc_validate_header header)
    then (s, send_response mem fd 0 IpcStatus.invalid_header none 0)
    else read_payload s mem now fd header payload

unfoldable pub handle_client_message : Server → Memory → ℕ → ℕ → Message → Server × List Effect
handle_client_message s mem now fd message = elim message.header_bytes [
  | none ↦ drop_client s fd
  | some bytes ↦ read_message s mem now fd bytes message.payload
]

-- `accept` and what follows: the new descriptor, and whether it can be made non-blocking, be
-- watched, and be remembered.
pub record Arrival : Type 0 where
  pub accepted : Option ℕ
  pub nonblocking : Bool
  pub watched : Bool
  pub allocated : Bool

unfoldable pub handle_new_connection : Server → Arrival → Server × List Effect
handle_new_connection s arrival = elim arrival.accepted [
  | none ↦ (s, [])
  | some fd ↦ if not arrival.nonblocking || not arrival.watched then (s, close_fd fd ∷ []) else (
    record s { connections = (add_connection s.connections fd 0 arrival.allocated).1 },
    kevent_add fd ∷ [],
  )
]

-- An event of the kernel queue, with what the calls of its handler will answer.
pub record Event : Type 0 where
  pub ident : ℕ
  pub is_read : Bool
  pub arrival : Arrival
  pub message : Message
  pub mem : Memory
  pub now : ℕ

unfoldable pub handle_event : Server → Event → Server × List Effect
handle_event s e = elim s.ctx.listen_fd [
  | none ↦ if e.is_read then handle_client_message s e.mem e.now e.ident e.message else (s, [])
  | some fd ↦
      if e.ident == fd
      then handle_new_connection s e.arrival
      else if e.is_read
      then handle_client_message s e.mem e.now e.ident e.message
      else (s, [])
]

pub handle_events : Server → List Event → Server × List Effect
handle_events s [] = (s, [])
handle_events s (e ∷ es) =
    let (s', done) = handle_event s e in
    let (s'', rest) = handle_events s' es in (s'', done ++ rest)

-- One turn of the main loop: a signal may come before its test, and `kevent` is interrupted, fails,
-- or gives at most 32 events.
pub data Turn : Type 0 where
  signal : Turn
  interrupted : Turn
  failed : Turn
  ready : List Event → Turn

-- `ipc_server_run`, over the turns that the world gives it.
pub run_turns : Server → List Turn → Server × List Effect
run_turns s [] = (s, [])
run_turns s (signal ∷ turns) =
    run_turns (record s { ctx = record (s.ctx) { running = false } }) turns
run_turns s (interrupted ∷ turns) =
    let rest = run_turns s turns in if s.ctx.running then rest else (s, [])
run_turns s (failed ∷ turns) = (s, [])
run_turns s (ready events ∷ turns) =
    let (s', done) = handle_events s events in
    let (s'', rest) = run_turns s' turns in if s.ctx.running then (s'', done ++ rest) else (s, [])

unfoldable pub ipc_server_run : Server → List Turn → Server × List Effect
ipc_server_run s turns = elim s.ctx.epoll_fd [ none ↦ (s, []) | some _ ↦ run_turns s turns ]

unfoldable pub ipc_server_stop : ServerContext → ServerContext
ipc_server_stop ctx = record ctx { running = false }

abbrev pub close_open : Option ℕ → List Effect
close_open none = []
close_open (some fd) = close_fd fd ∷ []

-- The removal of the socket's file is left out.
unfoldable pub ipc_server_cleanup : Server → Server × List Effect
ipc_server_cleanup s = (
  record {
    ctx = record (s.ctx) { clients = []; client_count = 0; epoll_fd = none; listen_fd = none };
    connections = [];
  },
  map (λ c. close_fd c.fd) s.connections
      ++ (close_open s.ctx.epoll_fd ++ close_open s.ctx.listen_fd),
)
