-- ===== src/Cli/Background.antt =====
-- The two background processes of the program (src/main.c, main): the router of internal-route, and
-- the server of internal-ipc-service. A process that does not end on the given turns is `none`.
use audioctl.Base.{
  ℕ, ◌≡◌, ◌≢◌, ◌⊎◌, refl, ap, ◌∙◌, true, false, Option, none, some, List, [], ◌∷◌, ◌++◌,
  if◌then◌else◌, arith, inl, inr, All, Bool-cases,
}
use audioctl.Base.Float.{Float32}
use audioctl.Base.Status.{no_err, is_no_err}
use audioctl.Router.Context.{RouterContext, AudioBuffer}
use audioctl.Router.Callbacks.{input_callback, output_callback}
use audioctl.Router.Lifecycle.{Answers, Call, audio_router_start, audio_router_stop}
use audioctl.Router.Lifecycle.Resources.{
  IsIdle, nothing, everything, after_calls, start_all_or_nothing,
}
use audioctl.Ipc.Server.{Server, Turn, ipc_server_run, ipc_server_cleanup}
use audioctl.Ipc.Server.Reply.{Effect}
use audioctl.Ipc.Server.Startup.{Startup, ipc_server_init}
use audioctl.Ipc.Server.Descriptors.{
  left_open, left_open-append, run_keeps, cleanup_clears, init-IsKnown, cleaned, IsTurnRemembered,
}
use audioctl.Router.Monitor.{audio_router_is_running}

-- A callback of the framework, with the buffers that it gets.
pub data IoCall : Type 0 where
  input output : List AudioBuffer → IoCall

module _ (fmul : Float32 → Float32 → Float32) where
  pub io_call : RouterContext → IoCall → RouterContext
  io_call ctx (input buffers) = input_callback ctx buffers
  io_call ctx (output buffers) = (output_callback fmul ctx buffers).0

  pub io_calls : RouterContext → List IoCall → RouterContext
  io_calls ctx [] = ctx
  io_calls ctx (c ∷ cs) = io_calls (io_call ctx c) cs

  -- The loop that waits: in each turn a second of callbacks.
  unfoldable pub wait_router : RouterContext → List (List IoCall) → Option RouterContext
  wait_router ctx [] = if audio_router_is_running ctx then none else some ctx
  wait_router ctx (calls ∷ turns) =
      let rest = wait_router (io_calls ctx calls) turns in
      if audio_router_is_running ctx then rest else some ctx

  -- The exit status, the state and the calls of the framework.
  unfoldable pub internal_route :
      Answers → RouterContext → List (List IoCall) → Option (ℕ × RouterContext × List Call)
  internal_route a ctx turns =
      let (status, ctx', calls) = audio_router_start a ctx in
      if is_no_err status
      then elim (wait_router ctx' turns) [
        | none ↦ none
        | some ctx'' ↦
            let (ctx''', rest) = audio_router_stop ctx'' in some (0, ctx''', calls ++ rest)
      ]
      else some (1, ctx', calls)

  io_call_runs : (ctx : RouterContext) (c : IoCall) → (io_call ctx c).is_running ≡ ctx.is_running
  unfolding io_call input_callback output_callback
  io_call_runs ctx (input []) = refl
  io_call_runs ctx (input (b ∷ bs)) = ground arith
  io_call_runs ctx (output []) = refl
  io_call_runs ctx (output (b ∷ bs)) = ground arith

  io_calls_run :
      (ctx : RouterContext) (cs : List IoCall) → (io_calls ctx cs).is_running ≡ ctx.is_running
  unfolding io_calls
  io_calls_run ctx [] = refl
  io_calls_run ctx (c ∷ cs) = io_calls_run (io_call ctx c) cs ∙ io_call_runs ctx c

  waits :
      (ctx : RouterContext) (turns : List (List IoCall))
      → ctx.is_running ≡ true
      → wait_router ctx turns ≡ none
  unfolding wait_router audio_router_is_running
  waits ctx [] h = ap (λ b. if b then none else some ctx) h
  waits ctx (calls ∷ turns) h =
      ap (λ b. if b then wait_router (io_calls ctx calls) turns else some ctx) h
      ∙ waits (io_calls ctx calls) turns (io_calls_run ctx calls ∙ h)

  -- The background router never ends by itself with status 0: from an idle state, either its start
  -- fails, and it ends with status 1, the route idle and nothing of the framework held, or its start
  -- succeeds, and then, whatever callbacks come and however long, it still waits, so that
  -- audio_router_stop is never reached, with both IO procs and both devices held.
  pub internal_route_lem :
      (a : Answers) (ctx : RouterContext) (turns : List (List IoCall))
      → IsIdle ctx
      → let (status, ctx', calls) = audio_router_start a ctx in
        ((status ≡ no_err)
          × (internal_route a ctx turns ≡ none)
          × (after_calls calls nothing ≡ everything))
        ⊎ ((status ≢ no_err)
            × (internal_route a ctx turns ≡ some (1, ctx', calls))
            × IsIdle ctx'
            × (after_calls calls nothing ≡ nothing))
  unfolding internal_route
  internal_route_lem a ctx turns idle = elim (start_all_or_nothing a ctx idle) [
    | inl (ok, on, held) ↦ inl (ok, rw (ok, waits (audio_router_start a ctx).1 turns on) refl, held)
    | inr (failed, off, clear) ↦ inr (failed, ground (arith, failed), off, clear)
  ]

-- The command internal-ipc-service: the exit status, the server and its effects.
unfoldable pub internal_ipc_service : Startup → List Turn → ℕ × Server × List Effect
internal_ipc_service a turns =
    let (done, ctx, started) = ipc_server_init a in
    let s : Server = record { ctx = ctx; connections = [] } in
    let (s', worked) = ipc_server_run s turns in
    let (s'', ended) = ipc_server_cleanup s' in
    if done then (0, s'', started ++ (worked ++ ended)) else (1, s, started)

-- The service ends with status 0 exactly if it could be started, and at its end, whatever the
-- clients, the kernel and the signals did, no descriptor that it watched is open and no connection
-- is left: if there was memory for every connection that came. Without it the code forgets an
-- accepted socket.
pub internal_ipc_service_lem :
    (a : Startup) (turns : List Turn) (fd : ℕ)
    → All IsTurnRemembered turns
    → let (status, s, effects) = internal_ipc_service a turns in
      (status ≡ (if (ipc_server_init a).0 then 0 else 1))
      × (left_open effects fd false ≡ false)
      × (s.connections ≡ [])
unfolding internal_ipc_service
internal_ipc_service_lem a turns fd r =
    let (done, ctx, started) = ipc_server_init a in
    let s : Server = record { ctx = ctx; connections = [] } in
    let (s', worked) = ipc_server_run s turns in
    let (known, failed_clear) = init-IsKnown a fd in
    let held = left_open started fd false in
    let all_closed : left_open (started ++ (worked ++ (ipc_server_cleanup s').1)) fd false ≡ false =
      left_open-append started (worked ++ (ipc_server_cleanup s').1) fd false
      ∙ left_open-append worked (ipc_server_cleanup s').1 fd held
      ∙ cleanup_clears s' fd _ (run_keeps s turns fd held r known) in
    elim (Bool-cases (ipc_server_init a).0) [
      | inl ok ↦ rw ok (refl, all_closed, (cleaned s').0)
      | inr failed ↦ rw failed (refl, ground (arith, failed, failed_clear), refl)
    ]
