-- ===== src/Ipc/Client/Reconnect.antt =====
-- The reconnection of the IPC client (src/ipc/ipc_client.c).
use audioctl.Base.{
  zero, suc, ◌⊎◌, ℕ, ◌+◌, ◌*◌, ◌^◌, ◌≤◌, ◌<◌, ◌≡◌, Bool, true, false, not, ◌&&◌, ltb, leb,
  if◌then◌else◌, arith,
}
use audioctl.Ipc.Client.{
  ClientContext, Attempt, Exchange, ipc_client_is_connected, ipc_client_connect,
}
use audioctl.Ipc.Client.Requests.{ipc_client_ping}
use audioctl.Ipc.Client.Cache.{sub64}

abbrev pub max_attempts : ℕ
max_attempts = 5

-- The wait in ms before an attempt.
unfoldable pub delay_ms : ℕ → ℕ
delay_ms attempts = let d = 100 * 2 ^ attempts in if ltb 5000 d then 5000 else d

unfoldable pub ipc_client_should_reconnect : ClientContext → ℕ → Exchange → Bool × ClientContext
ipc_client_should_reconnect ctx now x =
    if not (ipc_client_is_connected ctx) && ltb ctx.reconnect_attempts max_attempts
    then (true, ctx)
    else if ipc_client_is_connected ctx && ltb 30000 (sub64 now ctx.last_activity)
    then (let (alive, ctx') = ipc_client_ping ctx x in
        if alive
        then (false, ctx')
        else (ltb ctx'.reconnect_attempts max_attempts, record ctx' { connected = false }))
    else (false, ctx)

-- Whether the result is 0, the time slept, and the context.
unfoldable pub ipc_client_reconnect : ClientContext → Attempt → Bool × ℕ × ClientContext
ipc_client_reconnect ctx a =
    if leb max_attempts ctx.reconnect_attempts
    then (false, 0, ctx)
    else (let (done, ctx') =
          ipc_client_connect (record ctx { reconnect_attempts = ctx.reconnect_attempts + 1 }) a in
        (
          done,
          delay_ms ctx.reconnect_attempts,
          if done then record ctx' { reconnect_attempts = 0 } else ctx',
        ))

unfoldable pub ipc_client_reset_reconnect : ClientContext → ClientContext
ipc_client_reset_reconnect ctx = record ctx { reconnect_attempts = 0 }

delay_ms_bounds : (n : ℕ) → n < max_attempts → (100 ≤ delay_ms n) × (delay_ms n ≤ 1600)
unfolding delay_ms
delay_ms_bounds zero h = omega arith
delay_ms_bounds (suc zero) h = omega arith
delay_ms_bounds (suc (suc zero)) h = omega arith
delay_ms_bounds (suc (suc (suc zero))) h = omega arith
delay_ms_bounds (suc (suc (suc (suc zero)))) h = omega arith
delay_ms_bounds (suc (suc (suc (suc (suc n))))) h = absurd (omega arith)

-- An attempt below the limit sleeps between 100 ms and 1.6 s. It ends connected with the counter
-- at 0, or not connected with the counter one higher.
pub reconnect_counts :
    (ctx : ClientContext) (a : Attempt)
    → ctx.reconnect_attempts < max_attempts
    → let (done, slept, ctx') = ipc_client_reconnect ctx a in
      (100 ≤ slept)
      × (slept ≤ 1600)
      × (((done ≡ true) × (ipc_client_is_connected ctx' ≡ true) × (ctx'.reconnect_attempts ≡ 0))
          ⊎ ((done ≡ false)
              × (ipc_client_is_connected ctx' ≡ false)
              × (ctx'.reconnect_attempts ≡ ctx.reconnect_attempts + 1)))
unfolding ipc_client_reconnect ipc_client_connect ipc_client_is_connected
reconnect_counts ctx a h = ground (arith, delay_ms_bounds ctx.reconnect_attempts h)

-- At the limit nothing is tried and nothing changes, until the counter is reset.
pub reconnect_stops :
    (ctx : ClientContext) (a : Attempt)
    → max_attempts ≤ ctx.reconnect_attempts
    → (ipc_client_reconnect ctx a ≡ (false, 0, ctx))
      × ((ipc_client_reset_reconnect ctx).reconnect_attempts < max_attempts)
unfolding ipc_client_reconnect ipc_client_reset_reconnect
reconnect_stops ctx a h = (ground arith, omega arith)
