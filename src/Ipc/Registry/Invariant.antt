-- ===== src/Ipc/Registry/Invariant.antt =====
-- The invariant of the registry: no process is listed twice, and the count is that of the list.
use audioctl.Base.{
  ℕ, suc, ◌%◌, ◌^◌, ◌<◌, ◌≡◌, refl, ◌≢◌, inl, inr, Bool, true, none, some, List, [], ◌∷◌, length,
  take_all, Option-cases, arith,
}
use audioctl.Base.Float.{Float32}
use audioctl.Base.Bytes.{Bytes}
use audioctl.Ipc.Registry.{
  ClientEntry, ServerContext, find_entry, ipc_server_register_client, remove_entry,
  ipc_server_unregister_client, update_entry, clamp_volume, ipc_server_set_volume,
  ipc_server_set_mute, ipc_server_list_clients,
}
use audioctl.Ipc.Registry.Names.{length-app_name_of}

abbrev pub IsDistinct : List ClientEntry → Type 0
IsDistinct [] = Unit
IsDistinct (c ∷ cs) = (find_entry cs c.pid ≡ none) × (length c.app_name ≡ 256) × IsDistinct cs

-- Process ids are pairwise different, every name field has its 256 bytes, and the `uint32_t` count
-- is the length of the list.
pub record IsValid (ctx : ServerContext) : Type 0 where
  pub distinct : IsDistinct ctx.clients
  pub counted : ctx.client_count ≡ length ctx.clients % 2 ^ 32

-- A function that writes neither the process id nor the length of the name.
abbrev pub KeepsPid : (ClientEntry → ClientEntry) → Type 0
KeepsPid f = (c : ClientEntry) → ((f c).pid ≡ c.pid) × (length (f c).app_name ≡ length c.app_name)

pub find_entry-update_ne :
    (f : ClientEntry → ClientEntry) (cs : List ClientEntry) (p q : ℕ)
    → KeepsPid f
    → find_entry cs q ≡ none
    → find_entry (update_entry f cs p) q ≡ none
unfolding find_entry update_entry
find_entry-update_ne f [] p q k h = refl
find_entry-update_ne f (c ∷ cs) p q k h = ground (arith, k c, find_entry-update_ne f cs p q k)

pub update_entry-IsDistinct :
    (f : ClientEntry → ClientEntry) (cs : List ClientEntry) (p : ℕ)
    → KeepsPid f
    → IsDistinct cs
    → IsDistinct (update_entry f cs p) × (length (update_entry f cs p) ≡ length cs)
unfolding update_entry
update_entry-IsDistinct f [] p k d = (tt, refl)
update_entry-IsDistinct f (c ∷ cs) p k d =
    ground
      (arith, k c, find_entry-update_ne f cs p c.pid k d.0, update_entry-IsDistinct f cs p k d.2)

pub find_entry-remove_none :
    (cs : List ClientEntry) (p q : ℕ) {rest : List ClientEntry}
    → remove_entry cs p ≡ some rest
    → find_entry cs q ≡ none
    → find_entry rest q ≡ none
unfolding find_entry remove_entry
find_entry-remove_none [] p q e h = cc
find_entry-remove_none (c ∷ cs) p q e h = elim (Option-cases (remove_entry cs p)) [
  | inl missing ↦ ground arith
  | inr (left, found) ↦ ground (arith, find_entry-remove_none cs p q {rest = left} found)
]

pub remove_entry-IsDistinct :
    (cs : List ClientEntry) (p : ℕ) {rest : List ClientEntry}
    → remove_entry cs p ≡ some rest
    → IsDistinct cs
    → IsDistinct rest × (suc (length rest) ≡ length cs)
unfolding remove_entry
remove_entry-IsDistinct [] p e d = cc
remove_entry-IsDistinct (c ∷ cs) p e d = elim (Option-cases (remove_entry cs p)) [
  | inl missing ↦ ground arith
  | inr (left, found) ↦ ground (
    arith,
    find_entry-remove_none cs p c.pid {rest = left} found d.0,
    remove_entry-IsDistinct cs p {rest = left} found d.2,
  )
]

pub register-IsValid :
    (ctx : ServerContext) (pid : ℕ) (volume : Float32) (muted : Bool) (name : Bytes) (now : ℕ)
    (allocated : Bool)
    → IsValid ctx
    → IsValid (ipc_server_register_client ctx pid volume muted name now allocated).1
unfolding ipc_server_register_client
register-IsValid ctx pid volume muted name now allocated v = ground (arith, length-app_name_of name)

pub unregister-IsValid :
    (ctx : ServerContext) (pid : ℕ) → IsValid ctx → IsValid (ipc_server_unregister_client ctx pid).1
unfolding ipc_server_unregister_client
unregister-IsValid ctx pid v = elim (Option-cases (remove_entry ctx.clients pid)) [
  | inl missing ↦ ground arith
  | inr (rest, found) ↦
      ground (arith, remove_entry-IsDistinct ctx.clients pid {rest = rest} found v.distinct)
]

pub set_volume-IsValid :
    (ctx : ServerContext) (pid : ℕ) (volume : Float32)
    → IsValid ctx
    → IsValid (ipc_server_set_volume ctx pid volume).1
unfolding ipc_server_set_volume
set_volume-IsValid ctx pid volume v = ground (
  arith,
  update_entry-IsDistinct (λ c. record c { volume = clamp_volume volume }) ctx.clients pid
      (λ c. (refl, refl)) v.distinct,
)

pub set_mute-IsValid :
    (ctx : ServerContext) (pid : ℕ) (muted : Bool)
    → IsValid ctx
    → IsValid (ipc_server_set_mute ctx pid muted).1
unfolding ipc_server_set_mute
set_mute-IsValid ctx pid muted v = ground (
  arith,
  update_entry-IsDistinct (λ c. record c { muted = muted }) ctx.clients pid (λ c. (refl, refl))
      v.distinct,
)

length_pos : (cs : List ClientEntry) → cs ≢ [] → 0 < length cs
length_pos [] h = absurd (h refl)
length_pos (c ∷ cs) h = omega arith

-- In a valid registry of fewer than 2 ^ 32 clients the listing is the whole list, in order.
pub list_clients_whole :
    (ctx : ServerContext)
    → IsValid ctx
    → length ctx.clients < 2 ^ 32
    → ctx.clients ≢ []
    → ipc_server_list_clients ctx true ≡ (some ctx.clients, length ctx.clients)
unfolding ipc_server_list_clients
list_clients_whole ctx v small some_client =
    ground (arith, length_pos ctx.clients some_client, take_all ctx.client_count ctx.clients)
