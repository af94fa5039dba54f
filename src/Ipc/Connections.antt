-- ===== src/Ipc/Connections.antt =====
-- The list of connections of the IPC server (`g_connections` of src/ipc/ipc_server.c). The list
-- stands for the `next` pointers, and the mutex for each call being one step.
pub mod Laws
use audioctl.Base.{
  ℕ, zero, suc, Bool, true, false, Option, none, some, List, [], ◌∷◌, ◌==◌, if◌then◌else◌,
}
use audioctl.Ipc.Protocol.{minus_one}

-- `ClientConnection`
pub record Connection : Type 0 where
  pub fd : ℕ
  pub pid : ℕ

-- The flag says whether `malloc` gives memory.
unfoldable pub add_connection : List Connection → ℕ → ℕ → Bool → ℕ × List Connection
add_connection conns fd pid allocated =
    if allocated then (0, record { fd = fd; pid = pid } ∷ conns) else (minus_one, conns)

abbrev pub max_iterations : ℕ
max_iterations = 10000

-- The loop with the iterations left: the new list, and whether a connection was found, unlinked
-- and its descriptor closed.
pub remove_within : ℕ → List Connection → ℕ → List Connection × Bool
remove_within zero conns fd = (conns, false)
remove_within (suc n) [] fd = ([], false)
remove_within (suc n) (c ∷ cs) fd =
    let (rest, found) = remove_within n cs fd in
    if c.fd == fd then (cs, true) else (c ∷ rest, found)

pub remove_connection : List Connection → ℕ → List Connection × Bool
remove_connection conns fd = remove_within max_iterations conns fd
