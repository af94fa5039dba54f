-- ===== src/Ipc/Registry/Refine.antt =====
-- The registry refines a map from process ids to a volume and a mute state, request by request and
-- over any sequence of requests.
use audioctl.Base.{
  ℕ, ◌≡◌, refl, ap, ◌∙◌, Bool, true, Option, none, some, List, [], ◌∷◌, ◌==◌, if◌then◌else◌,
  Option-cases, Bool-cases, inl, inr, arith,
}
use mathlib.Core.Path.{ap₂, fun_ext}
use audioctl.Base.Float.{Float32, f_zero, f_one, flt}
use audioctl.Base.Bytes.{Bytes}
use audioctl.Ipc.Protocol.{minus_one}
use audioctl.Ipc.Registry.{
  ClientEntry, ServerContext, find_entry, ipc_server_register_client, remove_entry,
  ipc_server_unregister_client, update_entry, clamp_volume, ipc_server_set_volume,
  ipc_server_get_volume, ipc_server_set_mute,
}
use audioctl.Ipc.Registry.Invariant.{
  IsValid, IsDistinct, register-IsValid, unregister-IsValid, set_volume-IsValid, set_mute-IsValid,
}

-- What a client asks of the registry.
pub data Request : Type 0 where
  register : ℕ → Float32 → Bool → Bytes → Request
  unregister : ℕ → Request
  set_volume : ℕ → Float32 → Request
  set_mute : ℕ → Bool → Request

-- The result and the new registry, at time `now`, with memory for a new entry.
abbrev pub apply : ℕ → Request → ServerContext → ℕ × ServerContext
apply now (register pid volume muted name) ctx =
    ipc_server_register_client ctx pid volume muted name now true
apply now (unregister pid) ctx = ipc_server_unregister_client ctx pid
apply now (set_volume pid volume) ctx = ipc_server_set_volume ctx pid volume
apply now (set_mute pid muted) ctx = ipc_server_set_mute ctx pid muted

-- The abstract registry: the volume and the mute state of each registered process.
abbrev pub Mixer : Type 0
Mixer = ℕ → Option (Float32 × Bool)

-- The result of a request. A process is registered once; the other requests want a registered one.
abbrev pub answer : Request → Mixer → ℕ
answer (register pid volume muted name) m = elim (m pid) [ none ↦ 0 | some _ ↦ minus_one ]
answer (unregister pid) m = elim (m pid) [ none ↦ minus_one | some _ ↦ 0 ]
answer (set_volume pid volume) m = elim (m pid) [ none ↦ minus_one | some _ ↦ 0 ]
answer (set_mute pid muted) m = elim (m pid) [ none ↦ minus_one | some _ ↦ 0 ]

-- A volume within 0 and 1; a NaN stays.
abbrev pub limited : Float32 → Float32
limited v = if flt v f_zero then f_zero else if flt f_one v then f_one else v

limited_lem : (v : Float32) → clamp_volume v ≡ limited v
unfolding clamp_volume
limited_lem v = ground arith

-- The mixer after it. A volume is clamped when it is set, and not when it is registered.
abbrev pub after : Request → Mixer → Mixer
after (register pid volume muted name) m q =
    if pid == q then elim (m pid) [ none ↦ some (volume, muted) | some v ↦ some v ] else m q
after (unregister pid) m q = if pid == q then none else m q
after (set_volume pid volume) m q =
    if pid == q
    then elim (m pid) [ none ↦ none | some (_, muted) ↦ some (limited volume, muted) ]
    else m q
after (set_mute pid muted) m q =
    if pid == q then elim (m pid) [ none ↦ none | some (volume, _) ↦ some (volume, muted) ] else m q

-- The mixer that a registry stands for is what `ipc_server_get_volume` answers.
abbrev pub mixer_of : ServerContext → Mixer
mixer_of ctx pid = ipc_server_get_volume ctx pid

abbrev setting : Option ClientEntry → Option (Float32 × Bool)
setting none = none
setting (some c) = some (c.volume, c.muted)

find_entry-update :
    (f : ClientEntry → ClientEntry) (cs : List ClientEntry) (p q : ℕ)
    → ((c : ClientEntry) → (f c).pid ≡ c.pid)
    → find_entry (update_entry f cs p) q ≡ (
        if p == q
        then elim (find_entry cs q) [ none ↦ none | some c ↦ some (f c) ]
        else find_entry cs q)
unfolding find_entry update_entry
find_entry-update f [] p q k = ground arith
find_entry-update f (c ∷ cs) p q k = ground (arith, k c, find_entry-update f cs p q k)

find_entry-remove :
    (cs : List ClientEntry) (p q : ℕ) {rest : List ClientEntry}
    → IsDistinct cs
    → remove_entry cs p ≡ some rest
    → find_entry rest q ≡ (if p == q then none else find_entry cs q)
unfolding find_entry remove_entry
find_entry-remove [] p q d e = cc
find_entry-remove (c ∷ cs) p q d e = elim (Option-cases (remove_entry cs p)) [
  | inl missing ↦ ground arith
  | inr (left, found) ↦ ground (arith, find_entry-remove cs p q {rest = left} d.2 found)
]

pub remove_entry-none :
    (cs : List ClientEntry) (p : ℕ) → find_entry cs p ≡ none → remove_entry cs p ≡ none
unfolding find_entry remove_entry
remove_entry-none [] p h = refl
remove_entry-none (c ∷ cs) p h = ground (arith, remove_entry-none cs p)

pub remove_entry-some :
    (cs : List ClientEntry) (p : ℕ) {c : ClientEntry}
    → find_entry cs p ≡ some c
    → (rest : List ClientEntry) × (remove_entry cs p ≡ some rest)
unfolding find_entry remove_entry
remove_entry-some [] p h = cc
remove_entry-some (x ∷ cs) p h = elim (Bool-cases (x.pid == p)) [
  | inl e ↦ (cs, rw e)
  | inr e ↦ let (rest, found) = remove_entry-some cs p (rw e at h) in (x ∷ rest, rw (e, found))
]

apply-mixer :
    (now : ℕ) (r : Request) (ctx : ServerContext) (q : ℕ)
    → IsValid ctx
    → let (result, ctx') = apply now r ctx in
      (result ≡ answer r (mixer_of ctx)) × (mixer_of ctx' q ≡ after r (mixer_of ctx) q)
unfolding ipc_server_register_client ipc_server_unregister_client ipc_server_set_volume
    ipc_server_get_volume ipc_server_set_mute find_entry
apply-mixer now (register pid volume muted name) ctx q v = ground arith
apply-mixer now (unregister pid) ctx q v = elim (Option-cases (find_entry ctx.clients pid)) [
  | inl missing ↦ ground (arith, remove_entry-none ctx.clients pid missing)
  | inr (c, found) ↦
      let (rest, removed) = remove_entry-some ctx.clients pid found in
      ground (arith, find_entry-remove ctx.clients pid q {rest = rest} v.distinct removed)
]
apply-mixer now (set_volume pid volume) ctx q v = ground (
  arith,
  limited_lem volume,
  find_entry-update (λ c. record c { volume = clamp_volume volume }) ctx.clients pid q (λ c. refl),
)
apply-mixer now (set_mute pid muted) ctx q v =
    ground
      (arith, find_entry-update (λ c. record c { muted = muted }) ctx.clients pid q (λ c. refl))

pub apply-IsValid :
    (now : ℕ) (r : Request) (ctx : ServerContext) → IsValid ctx → IsValid (apply now r ctx).1
apply-IsValid now (register pid volume muted name) ctx v =
    register-IsValid ctx pid volume muted name now true v
apply-IsValid now (unregister pid) ctx v = unregister-IsValid ctx pid v
apply-IsValid now (set_volume pid volume) ctx v = set_volume-IsValid ctx pid volume v
apply-IsValid now (set_mute pid muted) ctx v = set_mute-IsValid ctx pid muted v

-- One request to a valid registry: the result is the mixer's, the mixer that the registry stands
-- for afterwards is the mixer's too, and the registry stays valid.
pub apply_refines :
    (now : ℕ) (r : Request) (ctx : ServerContext)
    → IsValid ctx
    → let (result, ctx') = apply now r ctx in
      (result ≡ answer r (mixer_of ctx)) × (mixer_of ctx' ≡ after r (mixer_of ctx)) × IsValid ctx'
apply_refines now r ctx v = (
  (apply-mixer now r ctx 0 v).0,
  fun_ext (λ q. (apply-mixer now r ctx q v).1),
  apply-IsValid now r ctx v,
)

-- Requests made one after the other, each at its time, and after each a look at some process: the
-- results, with what `ipc_server_get_volume` then tells of that process.
pub serve : List (ℕ × Request × ℕ) → ServerContext → List (ℕ × Option (Float32 × Bool))
serve [] ctx = []
serve ((now, r, q) ∷ rs) ctx =
    let (result, ctx') = apply now r ctx in (result, ipc_server_get_volume ctx' q) ∷ serve rs ctx'

pub answers : List (ℕ × Request × ℕ) → Mixer → List (ℕ × Option (Float32 × Bool))
answers [] m = []
answers ((now, r, q) ∷ rs) m = (answer r m, after r m q) ∷ answers rs (after r m)

-- No sequence of requests, each with memory for a new entry and followed by a look at the volume and
-- the mute state of any process, tells a valid registry from the mixer that it stands for.
pub serve_refines :
    (rs : List (ℕ × Request × ℕ)) (ctx : ServerContext)
    → IsValid ctx
    → serve rs ctx ≡ answers rs (mixer_of ctx)
unfolding serve answers
serve_refines [] ctx v = refl
serve_refines ((now, r, q) ∷ rs) ctx v =
    let (same, mixer, valid) = apply_refines now r ctx v in
    ap₂ ◌∷◌ (ap₂ (λ a b. (a, b)) same (ap (λ m. m q) mixer))
      (serve_refines rs (apply now r ctx).1 valid ∙ ap (answers rs) mixer)
