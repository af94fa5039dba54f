-- ===== src/Router/Ring/Run.antt =====
-- Any sequence of calls of `rb_write` and `rb_read` on the ring buffer.
use audioctl.Base.{
  ℕ, ◌+◌, ◌*◌, ◌^◌, ◌≤◌, ◌<◌, ◌≡◌, refl, ap, ◌∙◌, Option, some, List, [], ◌∷◌, ◌++◌, length, take,
  drop, arith,
}
use mathlib.Core.Path.{ap₂}
use audioctl.Base.Float.{Float32}
use audioctl.Router.Ring.{RingBuffer, rb_write, rb_read}
use audioctl.Router.Ring.Invariant.{IsValid}
use audioctl.Router.Ring.Fifo
use audioctl.Router.Ring.Fifo.{Fifo}
use audioctl.Router.Ring.Refine.{view, rb_write-push, rb_read-pop}

-- A call with its memory, frame count and channel count.
pub data Op : Type 0 where
  put : List Float32 → ℕ → ℕ → Op
  get : List Float32 → ℕ → ℕ → Op

-- The memory behind a write holds as many samples as it says, and the size of a read is no more
-- than a `uint32_t` counts.
abbrev pub WellFormed : Op → Type 0
WellFormed (put src frames channels) = frames * channels ≤ length src
WellFormed (get dst frames channels) = frames * channels < 2 ^ 32

abbrev pub AllWellFormed : List Op → Type 0
AllWellFormed [] = Unit
AllWellFormed (op ∷ ops) = WellFormed op × AllWellFormed ops

-- The samples that the calls try to write.
abbrev pub offered : List Op → ℕ
offered [] = 0
offered (put src frames channels ∷ ops) = frames * channels + offered ops
offered (get dst frames channels ∷ ops) = offered ops

-- The memories after the `rb_read` calls, in order, from the buffer and the two counters.
unfoldable pub run : RingBuffer → ℕ → ℕ → List Op → List (Option (List Float32))
run rb over under [] = []
run rb over under (put src frames channels ∷ ops) =
    let (rb', over') = rb_write rb over (some src) frames channels in run rb' over' under ops
run rb over under (get dst frames channels ∷ ops) =
    let (rb', under', dst') = rb_read rb under (some dst) frames channels in
    dst' ∷ run rb' over under' ops

-- The same calls on the queue.
unfoldable pub run_fifo : Fifo → List Op → List (Option (List Float32))
run_fifo q [] = []
run_fifo q (put src frames channels ∷ ops) =
    run_fifo (Fifo.push q (take (frames * channels) src)) ops
run_fifo q (get dst frames channels ∷ ops) =
    let (q', xs) = Fifo.pop q (frames * channels) in
    some (xs ++ drop (frames * channels) dst) ∷ run_fifo q' ops

-- No sequence of well-formed calls tells a valid buffer from the queue that it stands for, as long
-- as its write position and the samples offered to it stay below 2 ^ 32 together.
pub run_refines :
    (rb : RingBuffer) (over under : ℕ) (ops : List Op)
    → IsValid rb
    → AllWellFormed ops
    → rb.write_pos + offered ops < 2 ^ 32
    → run rb over under ops ≡ run_fifo (view rb over under) ops
unfolding run run_fifo
run_refines rb over under [] v ok low = refl
run_refines rb over under (put src frames channels ∷ ops) v ok low =
    let (rb', over') = rb_write rb over (some src) frames channels in
    let (valid, moved, same) =
      rb_write-push rb over under src frames channels v ok.0 (omega arith) in
    run_refines rb' over' under ops valid ok.1 (omega arith) ∙ ap (λ q. run_fifo q ops) same
run_refines rb over under (get dst frames channels ∷ ops) v ok low =
    let (rb', under', dst') = rb_read rb under (some dst) frames channels in
    let (valid, moved, same, out) = rb_read-pop rb over under dst frames channels v ok.0 in
    ap₂ ◌∷◌ out
      (run_refines rb' over under' ops valid ok.1 (omega arith) ∙ ap (λ q. run_fifo q ops) same)
