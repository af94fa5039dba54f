-- ===== src/Ipc/Server/Descriptors.antt =====
-- The descriptors that the server of internal-ipc-service (src/main.c, main) holds from its start to
-- its end.
use audioctl.Base.{
  ℕ, ◌≡◌, refl, ◌∙◌, Bool, true, false, not, ◌&&◌, ◌||◌, Option, none, some, List, [], ◌∷◌, ◌++◌,
  map, ◌==◌, if◌then◌else◌, arith, All, Option-cases, inl, inr, if_either,
}
use audioctl.Base.Bytes.{Bytes}
use audioctl.Ipc.Protocol.{Header, decode_header}
use audioctl.Ipc.Registry.{
  ServerContext, ipc_server_find_client, ipc_server_register_client, ipc_server_unregister_client,
  ipc_server_set_volume, ipc_server_set_mute,
}
use audioctl.Ipc.Connections.{Connection, add_connection}
use audioctl.Ipc.Connections.Laws.{is_connected, remove_connection_keeps}
use audioctl.Ipc.Server.Reply.{
  Effect, send_bytes, close_fd, kevent_add, kevent_delete, Memory, send_response,
}
use audioctl.Ipc.Server.Dispatch.{
  dispatch, handle_register, handle_unregister, handle_get_volume, handle_set_volume,
  handle_set_mute, handle_list_clients,
}
use audioctl.Ipc.Server.{
  Server, Event, Message, Turn, signal, interrupted, failed, ready, handle_new_connection,
  handle_event, handle_events, run_turns, ipc_server_run, ipc_server_cleanup, close_open,
  drop_client, answer_message, read_payload, read_message, handle_client_message,
}
use audioctl.Ipc.Server.Startup.{Startup, ipc_server_init, watch_socket}
use audioctl.Ipc.Server.Loop.{is_open}

-- Whether a descriptor is watched and open after the effects, if it was so before.
unfoldable pub left_open : List Effect → ℕ → Bool → Bool
left_open [] fd before = before
left_open (kevent_add x ∷ es) fd before = left_open es fd (if x == fd then true else before)
left_open (close_fd x ∷ es) fd before = left_open es fd (if x == fd then false else before)
left_open (send_bytes x bytes ∷ es) fd before = left_open es fd before
left_open (kevent_delete x ∷ es) fd before = left_open es fd before

pub left_open-append :
    (es fs : List Effect) (fd : ℕ) (before : Bool)
    → left_open (es ++ fs) fd before ≡ left_open fs fd (left_open es fd before)
unfolding left_open
left_open-append [] fs fd b = refl
left_open-append (kevent_add x ∷ es) fs fd b = left_open-append es fs fd _
left_open-append (close_fd x ∷ es) fs fd b = left_open-append es fs fd _
left_open-append (send_bytes x bytes ∷ es) fs fd b = left_open-append es fs fd b
left_open-append (kevent_delete x ∷ es) fs fd b = left_open-append es fs fd b

-- An open descriptor is that of a connection or of the socket.
abbrev pub IsKnown : Server → ℕ → Bool → Type 0
IsKnown s fd held =
    (held && not (is_connected s.connections fd || is_open s.ctx.listen_fd fd)) ≡ false

dispatch_listen :
    (ctx : ServerContext) (mem : Memory) (now : ℕ) (header : Header) (payload : Option Bytes)
    → (dispatch ctx mem now header payload).ctx.listen_fd ≡ ctx.listen_fd
unfolding dispatch handle_register handle_unregister handle_get_volume handle_set_volume
    handle_set_mute handle_list_clients ipc_server_register_client ipc_server_unregister_client
    ipc_server_set_volume ipc_server_set_mute ipc_server_find_client
dispatch_listen ctx mem now header payload = ground arith

answer_keeps :
    (s : Server) (mem : Memory) (now from : ℕ) (header : Header) (payload : Option Bytes) (fd : ℕ)
    (held : Bool)
    → IsKnown s fd held
    → let (s', done) = answer_message s mem now from header payload in
      IsKnown s' fd (left_open done fd held)
unfolding answer_message send_response left_open
answer_keeps s mem now from header payload fd held v =
    rw (dispatch_listen s.ctx mem now header payload) (ground (arith, v))

drop_keeps :
    (s : Server) (gone fd : ℕ) (held : Bool)
    → IsKnown s fd held
    → let (s', done) = drop_client s gone in IsKnown s' fd (left_open done fd held)
unfolding drop_client left_open
drop_keeps s gone fd held v = ground (arith, v, remove_connection_keeps s.connections gone fd)

payload_keeps :
    (s : Server) (mem : Memory) (now from : ℕ) (header : Header) (payload : Option Bytes) (fd : ℕ)
    (held : Bool)
    → IsKnown s fd held
    → let (s', done) = read_payload s mem now from header payload in
      IsKnown s' fd (left_open done fd held)
unfolding read_payload left_open send_response
payload_keeps s mem now from header payload fd held v = ground (
  arith,
  v,
  answer_keeps s mem now from header none fd held v,
  answer_keeps s mem now from header payload fd held v,
)

read_keeps :
    (s : Server) (mem : Memory) (now from : ℕ) (bytes : Bytes) (payload : Option Bytes) (fd : ℕ)
    (held : Bool)
    → IsKnown s fd held
    → let (s', done) = read_message s mem now from bytes payload in
      IsKnown s' fd (left_open done fd held)
unfolding read_message left_open send_response
read_keeps s mem now from bytes payload fd held v =
    ground (arith, v, payload_keeps s mem now from (decode_header bytes) payload fd held v)

message_keeps :
    (s : Server) (mem : Memory) (now from : ℕ) (message : Message) (fd : ℕ) (held : Bool)
    → IsKnown s fd held
    → let (s', done) = handle_client_message s mem now from message in
      IsKnown s' fd (left_open done fd held)
unfolding handle_client_message
message_keeps s mem now from message fd held v = elim (Option-cases message.header_bytes) [
  | inl closed ↦ rw closed (drop_keeps s from fd held v)
  | inr (bytes, came) ↦ rw came (read_keeps s mem now from bytes message.payload fd held v)
]

-- The memory for a connection can be had.
abbrev pub IsRemembered : Event → Type 0
IsRemembered e = e.arrival.allocated ≡ true

connection_keeps :
    (s : Server) (e : Event) (fd : ℕ) (held : Bool)
    → IsRemembered e
    → IsKnown s fd held
    → let (s', done) = handle_new_connection s e.arrival in IsKnown s' fd (left_open done fd held)
unfolding handle_new_connection add_connection left_open is_connected
connection_keeps s e fd held r v = ground (arith, v, r)

event_keeps :
    (s : Server) (e : Event) (fd : ℕ) (held : Bool)
    → IsRemembered e
    → IsKnown s fd held
    → let (s', done) = handle_event s e in IsKnown s' fd (left_open done fd held)
unfolding handle_event left_open
event_keeps s e fd held r v = ground (
  arith,
  v,
  connection_keeps s e fd held r v,
  message_keeps s e.mem e.now e.ident e.message fd held v,
)

events_keep :
    (s : Server) (events : List Event) (fd : ℕ) (held : Bool)
    → All IsRemembered events
    → IsKnown s fd held
    → let (s', done) = handle_events s events in IsKnown s' fd (left_open done fd held)
unfolding handle_events left_open
events_keep s [] fd held r v = v
events_keep s (e ∷ es) fd held r v =
    let (s', done) = handle_event s e in
    rw (left_open-append done (handle_events s' es).1 fd held)
      (events_keep s' es fd (left_open done fd held) r.1 (event_keeps s e fd held r.0 v))

abbrev pub IsTurnRemembered : Turn → Type 0
IsTurnRemembered signal = Unit
IsTurnRemembered interrupted = Unit
IsTurnRemembered failed = Unit
IsTurnRemembered (ready events) = All IsRemembered events

turns_keep :
    (s : Server) (turns : List Turn) (fd : ℕ) (held : Bool)
    → All IsTurnRemembered turns
    → IsKnown s fd held
    → let (s', done) = run_turns s turns in IsKnown s' fd (left_open done fd held)
unfolding run_turns left_open
turns_keep s [] fd held r v = v
turns_keep s (signal ∷ turns) fd held r v =
    turns_keep (record s { ctx = record (s.ctx) { running = false } }) turns fd held r.1 v
turns_keep s (interrupted ∷ turns) fd held r v =
    if_either (λ (out : Server × List Effect). IsKnown out.0 fd (left_open out.1 fd held))
      s.ctx.running _ _ (turns_keep s turns fd held r.1 v) v
turns_keep s (failed ∷ turns) fd held r v = v
turns_keep s (ready events ∷ turns) fd held r v =
    let (s', done) = handle_events s events in
    if_either (λ (out : Server × List Effect). IsKnown out.0 fd (left_open out.1 fd held))
      s.ctx.running _ _
      (rw (left_open-append done (run_turns s' turns).1 fd held)
        (turns_keep s' turns fd (left_open done fd held) r.1 (events_keep s events fd held r.0 v)))
      v

pub run_keeps :
    (s : Server) (turns : List Turn) (fd : ℕ) (held : Bool)
    → All IsTurnRemembered turns
    → IsKnown s fd held
    → let (s', done) = ipc_server_run s turns in IsKnown s' fd (left_open done fd held)
unfolding ipc_server_run left_open
run_keeps s turns fd held r v = ground (arith, v, turns_keep s turns fd held r v)

connections_closed :
    (conns : List Connection) (es : List Effect) (fd : ℕ) (held : Bool)
    → left_open (map (λ (c : Connection). close_fd c.fd) conns ++ es) fd held
      ≡ left_open es fd (held && not (is_connected conns fd))
unfolding left_open is_connected
connections_closed [] es fd held = ground arith
connections_closed (c ∷ cs) es fd held =
    ground (arith, connections_closed cs es fd held, connections_closed cs es fd false)

socket_closed :
    (queue socket : Option ℕ) (fd : ℕ) (held : Bool)
    → (held && not (is_open socket fd)) ≡ false
    → left_open (close_open queue ++ close_open socket) fd held ≡ false
unfolding left_open
socket_closed none none fd held h = ground (arith, h)
socket_closed none (some y) fd held h = ground (arith, h)
socket_closed (some x) none fd held h = ground (arith, h)
socket_closed (some x) (some y) fd held h = ground (arith, h)

pub cleanup_clears :
    (s : Server) (fd : ℕ) (held : Bool)
    → IsKnown s fd held
    → left_open (ipc_server_cleanup s).1 fd held ≡ false
unfolding ipc_server_cleanup
cleanup_clears s fd held v =
    connections_closed s.connections (close_open s.ctx.epoll_fd ++ close_open s.ctx.listen_fd) fd
      held
    ∙ socket_closed s.ctx.epoll_fd s.ctx.listen_fd fd _ (ground (arith, v))

-- A start that succeeds watches its socket only; one that fails leaves nothing open.
pub init-IsKnown :
    (a : Startup) (fd : ℕ)
    → let (done, ctx, effects) = ipc_server_init a in
      IsKnown (record { ctx = ctx; connections = [] }) fd (left_open effects fd false)
      × ((not done && left_open effects fd false) ≡ false)
unfolding ipc_server_init watch_socket left_open is_connected
init-IsKnown a fd = elim (Option-cases a.socket) [
  | inl refused ↦ ground (arith, refused)
  | inr (socket, e) ↦ elim (Option-cases a.queue) [
    | inl no_queue ↦ ground (arith, e, no_queue)
    | inr (queue, e') ↦ ground (arith, e, e')
  ]
]

pub cleaned :
    (s : Server)
    → ((ipc_server_cleanup s).0.connections ≡ []) × ((ipc_server_cleanup s).0.ctx.clients ≡ [])
unfolding ipc_server_cleanup
cleaned s = (refl, refl)
