-- ===== src/Ipc/Server/Startup.antt =====
-- The start of the IPC server: `ipc_server_init` of src/ipc/ipc_server.c. The removals of the
-- socket's file and the installation of the signal handler are left out.
use audioctl.Base.{
  ℕ, ◌≡◌, Bool, true, false, not, ◌&&◌, ◌||◌, Option, none, some, List, [], ◌∷◌, if◌then◌else◌, ◌⊎◌,
  inl, inr, ◌==◌, Option-cases, arith,
}
use audioctl.Ipc.Registry.{ServerContext}
use audioctl.Ipc.Registry.Invariant.{IsValid}
use audioctl.Ipc.Server.Reply.{Effect, close_fd, kevent_add}
use audioctl.Ipc.Server.Loop.{closes, is_open}

-- What the system answers: whether the path of the socket is known, the new socket, whether it can
-- be made non-blocking, bound and listened at, the new kernel queue, and whether it watches the
-- socket.
pub record Startup : Type 0 where
  pub path_known : Bool
  pub socket : Option ℕ
  pub nonblocking : Bool
  pub bound : Bool
  pub listening : Bool
  pub queue : Option ℕ
  pub watched : Bool

-- `memset` to 0: the descriptors are 0.
abbrev zeroed : ServerContext
zeroed = record {
  listen_fd = some 0;
  epoll_fd = some 0;
  clients = [];
  client_count = 0;
  running = false;
  next_request_id = 0;
}

-- From the creation of the kernel queue on.
unfoldable pub watch_socket : Startup → ServerContext → ℕ → Bool × ServerContext × List Effect
watch_socket a ctx fd = elim a.queue [
  | none ↦ (false, record ctx { epoll_fd = none }, close_fd fd ∷ [])
  | some queue ↦
      if not a.watched
      then (
        false,
        record ctx { epoll_fd = some queue },
        kevent_add fd ∷ close_fd queue ∷ close_fd fd ∷ [],
      )
      else (true, record ctx { epoll_fd = some queue; running = true }, kevent_add fd ∷ [])
]

-- The flag is true for the result 0.
unfoldable pub ipc_server_init : Startup → Bool × ServerContext × List Effect
unfolding watch_socket
ipc_server_init a = if not a.path_known then (false, zeroed, []) else elim a.socket [
  | none ↦ (false, record zeroed { listen_fd = none }, [])
  | some fd ↦
      let ctx = record zeroed { listen_fd = some fd } in
      if not a.nonblocking || (not a.bound || not a.listening)
      then (false, ctx, close_fd fd ∷ [])
      else watch_socket a ctx fd
]

-- The descriptors that a start opens: the queue is made only for a listening socket.
abbrev pub opened : Startup → ℕ → Bool
opened a fd = elim (if a.path_known then a.socket else none) [
  | none ↦ false
  | some socket ↦
      socket == fd || ((a.nonblocking && (a.bound && a.listening)) && is_open a.queue fd)
]

-- A start that fails has closed exactly the descriptors that it opened, and the server does not
-- run. One that succeeds keeps its socket and its queue open, has an empty, valid registry, and
-- runs.
pub init_closes :
    (a : Startup) (fd : ℕ)
    → let (done, ctx, effects) = ipc_server_init a in
      (ctx.running ≡ done)
      × (closes effects fd ≡ (not done && opened a fd))
      × IsValid ctx
      × ((done ≡ false) ⊎ ((ctx.listen_fd ≡ a.socket) × (ctx.epoll_fd ≡ a.queue)))
unfolding ipc_server_init closes
init_closes a fd = elim (Option-cases a.socket) [
  | inl refused ↦ ground arith
  | inr (socket, e) ↦ elim (Option-cases a.queue) [
    | inl no_queue ↦ ground arith
    | inr (queue, e') ↦ ground arith
  ]
]
