-- ===== src/Ipc/Client/Cache.antt =====
-- The volume cache of the IPC client: `ipc_client_get_volume_fast`, `ipc_client_refresh_cache` and
-- `ipc_client_set_cache` of src/ipc/ipc_client.c.
use audioctl.Base.{
  ℕ, ◌+◌, ◌-◌, ◌%◌, ◌^◌, Bool, true, false, not, ◌&&◌, none, some, ◌==◌, ltb, if◌then◌else◌, arith,
  ◌≤◌, ◌<◌, ◌≡◌,
}
use audioctl.Base.Float.{Float32}
use audioctl.Ipc.Client.{ClientContext, Exchange, ipc_client_is_connected}
use audioctl.Ipc.Client.Requests.{query_volume}

abbrev pub cache_ttl_ms : ℕ
cache_ttl_ms = 100

-- `uint64_t` subtraction wraps.
abbrev pub sub64 : ℕ → ℕ → ℕ
sub64 a b = (a + 2 ^ 64 - b) % 2 ^ 64

abbrev pub is_fresh : ClientContext → ℕ → ℕ → Bool
is_fresh ctx pid now =
    ctx.cache_valid && (ctx.cached_pid == pid && ltb (sub64 now ctx.cache_timestamp) cache_ttl_ms)

unfoldable pub ipc_client_set_cache : ClientContext → ℕ → Float32 → Bool → ℕ → ClientContext
ipc_client_set_cache ctx pid volume muted now = record ctx {
  cached_pid = pid;
  cached_volume = volume;
  cached_muted = muted;
  cache_timestamp = now;
  cache_valid = true;
}

-- Whether the result is 0, the volume and the mute state that are handed out, and the context. The
-- time stamp of the cache is the one before the exchange.
unfoldable pub ipc_client_get_volume_fast :
    ClientContext → ℕ → ℕ → Exchange → Bool × Float32 × Bool × ClientContext
unfolding ipc_client_set_cache
ipc_client_get_volume_fast ctx pid now x =
    if is_fresh ctx pid now
    then (true, ctx.cached_volume, ctx.cached_muted, ctx)
    else if not (ipc_client_is_connected ctx)
    then (false, ctx.cached_volume, ctx.cached_muted, ctx)
    else (let (answer, ctx') = query_volume ctx pid x in
        elim answer [
          | none ↦ (false, ctx'.cached_volume, ctx'.cached_muted, ctx')
          | some (volume, muted) ↦
              (true, volume, muted, ipc_client_set_cache ctx' pid volume muted now)
        ])

unfoldable pub ipc_client_refresh_cache : ClientContext → ℕ → ℕ → Exchange → Bool × ClientContext
unfolding ipc_client_set_cache
ipc_client_refresh_cache ctx pid now x =
    if not (ipc_client_is_connected ctx)
    then (false, ctx)
    else (let (answer, ctx') = query_volume ctx pid x in
        elim answer [
          | none ↦ (false, ctx')
          | some (volume, muted) ↦ (true, ipc_client_set_cache ctx' pid volume muted now)
        ])

-- Without a connection the cache answers for the process it was set for and for 100 ms, and for
-- nothing else: what was set comes back, and asking leaves the context as it is. The hypotheses are
-- that the clock has not gone back and fits 64 bits.
pub set_cache-get_volume_fast :
    (ctx : ClientContext) (pid q : ℕ) (volume : Float32) (muted : Bool) (now later : ℕ)
    (x : Exchange)
    → ipc_client_is_connected ctx ≡ false
    → now ≤ later
    → later < 2 ^ 64
    → let ctx' = ipc_client_set_cache ctx pid volume muted now in
      ipc_client_get_volume_fast ctx' q later x
      ≡ (pid == q && ltb (later - now) cache_ttl_ms, volume, muted, ctx')
unfolding ipc_client_get_volume_fast ipc_client_is_connected ipc_client_set_cache
set_cache-get_volume_fast ctx pid q volume muted now later x off order small = ground arith
