-- ===== src/Ipc/Server/Loop.antt =====
-- The main loop of the server and its clean-up.
use audioctl.Base.{
  ℕ, ◌≡◌, refl, ap, ◌∙◌, Bool, true, false, ◌||◌, Option, none, some, List, [], ◌∷◌, ◌++◌, map,
  ◌==◌, if◌then◌else◌, if_either, arith,
}
use audioctl.Ipc.Registry.Invariant.{IsValid}
use audioctl.Ipc.Connections.{Connection}
use audioctl.Ipc.Connections.Laws.{is_connected}
use audioctl.Ipc.Server.Reply.{Effect, send_bytes, close_fd, kevent_add, kevent_delete}
use audioctl.Ipc.Server.{
  Server, Event, Turn, signal, interrupted, failed, ready, handle_new_connection, handle_event,
  handle_events, run_turns, ipc_server_run, ipc_server_cleanup, close_open,
}
use audioctl.Ipc.Server.Messages.{handle_client_message-IsValid}

handle_event-IsValid : (s : Server) (e : Event) → IsValid s.ctx → IsValid (handle_event s e).0.ctx
unfolding handle_event handle_new_connection
handle_event-IsValid s e v =
    ground (arith, handle_client_message-IsValid s e.mem e.now e.ident e.message v)

handle_events-IsValid :
    (s : Server) (es : List Event) → IsValid s.ctx → IsValid (handle_events s es).0.ctx
unfolding handle_events
handle_events-IsValid s [] v = v
handle_events-IsValid s (e ∷ es) v =
    handle_events-IsValid (handle_event s e).0 es (handle_event-IsValid s e v)

run_turns-IsValid :
    (s : Server) (turns : List Turn) → IsValid s.ctx → IsValid (run_turns s turns).0.ctx
unfolding run_turns
run_turns-IsValid s [] v = v
run_turns-IsValid s (signal ∷ turns) v =
    run_turns-IsValid (record s { ctx = record (s.ctx) { running = false } }) turns
      (record { distinct = v.distinct; counted = v.counted })
run_turns-IsValid s (interrupted ∷ turns) v =
    if_either (λ (out : Server × List Effect). IsValid out.0.ctx) s.ctx.running _ _
      (run_turns-IsValid s turns v) v
run_turns-IsValid s (failed ∷ turns) v = v
run_turns-IsValid s (ready events ∷ turns) v =
    if_either (λ (out : Server × List Effect). IsValid out.0.ctx) s.ctx.running _ _
      (run_turns-IsValid (handle_events s events).0 turns (handle_events-IsValid s events v)) v

-- A main loop that starts with a valid registry leaves a valid one, whatever the turns are that the
-- kernel, the clients and the signals make of it.
pub ipc_server_run-IsValid :
    (s : Server) (turns : List Turn) → IsValid s.ctx → IsValid (ipc_server_run s turns).0.ctx
unfolding ipc_server_run
ipc_server_run-IsValid s turns v = ground (arith, run_turns-IsValid s turns v)

-- A server that does not run touches nothing.
not_running : (s : Server) (turns : List Turn) → s.ctx.running ≡ false → (run_turns s turns).1 ≡ []
unfolding run_turns
not_running s [] h = refl
not_running s (signal ∷ turns) h =
    not_running (record s { ctx = record (s.ctx) { running = false } }) turns refl
not_running s (interrupted ∷ turns) h = rw h
not_running s (failed ∷ turns) h = refl
not_running s (ready events ∷ turns) h = rw h

-- After a signal the loop handles no more events.
pub signal_stops : (s : Server) (turns : List Turn) → (ipc_server_run s (signal ∷ turns)).1 ≡ []
unfolding ipc_server_run run_turns
signal_stops s turns =
    ground (arith, not_running (record s { ctx = record (s.ctx) { running = false } }) turns)

-- Whether some effect closes the descriptor.
unfoldable pub closes : List Effect → ℕ → Bool
closes [] fd = false
closes (close_fd x ∷ es) fd = if x == fd then true else closes es fd
closes (send_bytes x bytes ∷ es) fd = closes es fd
closes (kevent_add x ∷ es) fd = closes es fd
closes (kevent_delete x ∷ es) fd = closes es fd

abbrev pub is_open : Option ℕ → ℕ → Bool
is_open none fd = false
is_open (some x) fd = x == fd

closes_all :
    (conns : List Connection) (es : List Effect) (fd : ℕ)
    → closes (map (λ (c : Connection). close_fd c.fd) conns ++ es) fd
      ≡ (is_connected conns fd || closes es fd)
unfolding closes is_connected
closes_all [] es fd = refl
closes_all (c ∷ cs) es fd = ground (arith, closes_all cs es fd)

closes_open :
    (a b : Option ℕ) (fd : ℕ)
    → closes (close_open a ++ close_open b) fd ≡ (is_open a fd || is_open b fd)
unfolding closes
closes_open none none fd = refl
closes_open none (some y) fd = ground arith
closes_open (some x) none fd = ground arith
closes_open (some x) (some y) fd = ground arith

-- The clean-up closes exactly the descriptors of the connections, the kernel queue and the
-- listening socket, and leaves an empty, valid registry and no connection.
pub cleanup_closes :
    (s : Server) (fd : ℕ)
    → let (s', effects) = ipc_server_cleanup s in
      (closes effects fd ≡ (
        is_connected s.connections fd || (is_open s.ctx.epoll_fd fd || is_open s.ctx.listen_fd fd)))
      × IsValid s'.ctx
      × (s'.ctx.clients ≡ [])
      × (s'.connections ≡ [])
unfolding ipc_server_cleanup
cleanup_closes s fd = (
  closes_all s.connections (close_open s.ctx.epoll_fd ++ close_open s.ctx.listen_fd) fd
      ∙ ap (λ b. is_connected s.connections fd || b)
          (closes_open s.ctx.epoll_fd s.ctx.listen_fd fd),
  record { distinct = tt; counted = omega arith },
  refl,
  refl,
)
