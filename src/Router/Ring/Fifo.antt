-- ===== src/Router/Ring/Fifo.antt =====
-- What the ring buffer promises: a queue of fewer than `total_samples` samples that drops a block
-- which does not fit, and answers a request that it cannot fill with silence.
use audioctl.Base.{
  ℕ, ◌+◌, List, ◌++◌, length, take, drop, replicate, ltb, leb, add32, if◌then◌else◌,
}
use audioctl.Base.Float.{Float32, f_zero}
use audioctl.Router.Ring.{total_samples}

pub record Fifo : Type 0 where
  pub queue : List Float32
  pub overruns : ℕ
  pub underruns : ℕ

-- The samples `xs` are taken whole, or dropped and counted.
unfoldable pub push : Fifo → List Float32 → Fifo
push q xs =
    if ltb (length q.queue + length xs) total_samples
    then record q { queue = q.queue ++ xs }
    else record q { overruns = add32 q.overruns 1 }

-- The first `n` samples, or `n` times silence.
unfoldable pub pop : Fifo → ℕ → Fifo × List Float32
pop q n =
    if leb n (length q.queue)
    then (record q { queue = drop n q.queue }, take n q.queue)
    else (record q { underruns = add32 q.underruns 1 }, replicate n f_zero)
