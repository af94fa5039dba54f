-- ===== src/Ipc/Registry.antt =====
-- The registry of clients of the IPC server (src/ipc/ipc_server.c, the list `ctx->clients` and its
-- operations). A function that updates the list returns the new context behind its result; a
-- `malloc` enters as a flag that says whether it gives memory, and the clock as a time stamp.
pub mod Names
pub mod Volume
pub mod Invariant
pub mod Refine
use audioctl.Base.{
  ℕ, ◌+◌, ◌-◌, Bool, true, false, Option, none, some, List, [], ◌∷◌, ◌++◌, take, ◌==◌, add32, sub32,
  if◌then◌else◌,
}
use audioctl.Base.Float.{Float32, f_zero, f_one, flt}
use audioctl.Base.Bytes.{Bytes}
use audioctl.Ipc.Protocol.{minus_one}
use Names.{app_name_of}

-- `IPCClientEntry`; the list stands for the `next` pointers.
pub record ClientEntry : Type 0 where
  pub pid : ℕ
  pub volume : Float32
  pub muted : Bool
  pub connected_at : ℕ
  pub app_name : Bytes

-- `IPCServerContext`; `none` is the descriptor -1.
pub record ServerContext : Type 0 where
  pub listen_fd : Option ℕ
  pub epoll_fd : Option ℕ
  pub clients : List ClientEntry
  pub client_count : ℕ
  pub running : Bool
  pub next_request_id : ℕ

-- The walk along the list.
unfoldable pub find_entry : List ClientEntry → ℕ → Option ClientEntry
find_entry [] pid = none
find_entry (c ∷ cs) pid = if c.pid == pid then some c else find_entry cs pid

unfoldable pub ipc_server_find_client : ServerContext → ℕ → Option ClientEntry
ipc_server_find_client ctx pid = find_entry ctx.clients pid

unfoldable pub ipc_server_register_client :
    ServerContext → ℕ → Float32 → Bool → Bytes → ℕ → Bool → ℕ × ServerContext
unfolding ipc_server_find_client
ipc_server_register_client ctx pid volume muted name now allocated =
    elim (ipc_server_find_client ctx pid) [
      | some _ ↦ (minus_one, ctx)
      | none ↦
          if allocated
          then (
            0,
            record ctx {
              clients =
                  record {
                    pid = pid;
                    volume = volume;
                    muted = muted;
                    connected_at = now;
                    app_name = app_name_of name;
                  }
                  ∷ ctx.clients;
              client_count = add32 ctx.client_count 1;
            },
          )
          else (minus_one, ctx)
    ]

-- The list without its first entry for `pid`, or `none` if there is no such entry.
pub remove_entry : List ClientEntry → ℕ → Option (List ClientEntry)
remove_entry [] pid = none
remove_entry (c ∷ cs) pid =
    if c.pid == pid
    then some cs
    else elim (remove_entry cs pid) [ none ↦ none | some cs' ↦ some (c ∷ cs') ]

unfoldable pub ipc_server_unregister_client : ServerContext → ℕ → ℕ × ServerContext
ipc_server_unregister_client ctx pid = elim (remove_entry ctx.clients pid) [
  | none ↦ (minus_one, ctx)
  | some cs ↦ (0, record ctx { clients = cs; client_count = sub32 ctx.client_count 1 })
]

-- A write through the pointer that `ipc_server_find_client` returns: it changes the first entry for
-- `pid`.
pub update_entry : (ClientEntry → ClientEntry) → List ClientEntry → ℕ → List ClientEntry
update_entry f [] pid = []
update_entry f (c ∷ cs) pid = if c.pid == pid then f c ∷ cs else c ∷ update_entry f cs pid

-- The two tests at the start of `ipc_server_set_volume`.
unfoldable pub clamp_volume : Float32 → Float32
clamp_volume volume =
    let v = if flt volume f_zero then f_zero else volume in if flt f_one v then f_one else v

unfoldable pub ipc_server_set_volume : ServerContext → ℕ → Float32 → ℕ × ServerContext
unfolding ipc_server_find_client
ipc_server_set_volume ctx pid volume =
    let v = clamp_volume volume in
    elim (ipc_server_find_client ctx pid) [
      | none ↦ (minus_one, ctx)
      | some _ ↦
          (0, record ctx { clients = update_entry (λ c. record c { volume = v }) ctx.clients pid })
    ]

-- The volume and the mute state, `none` for -1. Both out pointers are given.
unfoldable pub ipc_server_get_volume : ServerContext → ℕ → Option (Float32 × Bool)
unfolding ipc_server_find_client
ipc_server_get_volume ctx pid = elim (ipc_server_find_client ctx pid) [
  | none ↦ none
  | some c ↦ some (c.volume, c.muted)
]

unfoldable pub ipc_server_set_mute : ServerContext → ℕ → Bool → ℕ × ServerContext
unfolding ipc_server_find_client
ipc_server_set_mute ctx pid muted = elim (ipc_server_find_client ctx pid) [
  | none ↦ (minus_one, ctx)
  | some _ ↦
      (0, record ctx { clients = update_entry (λ c. record c { muted = muted }) ctx.clients pid })
]

pub ipc_server_get_client_count : ServerContext → ℕ
ipc_server_get_client_count ctx = ctx.client_count

-- The array and its length; `none` is the null pointer. At most `client_count` entries are copied.
unfoldable pub ipc_server_list_clients : ServerContext → Bool → Option (List ClientEntry) × ℕ
ipc_server_list_clients ctx allocated =
    if ctx.client_count == 0
    then (none, 0)
    else if allocated
    then (some (take ctx.client_count ctx.clients), ctx.client_count)
    else (none, 0)
