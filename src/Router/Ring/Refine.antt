-- ===== src/Router/Ring/Refine.antt =====
-- The ring buffer refines the queue of `Fifo`, call by call and over any sequence of calls.
use audioctl.Base.{
  ℕ, ◌+◌, ◌*◌, ◌^◌, ◌≤◌, ◌<◌, ◌≡◌, some, List, ◌++◌, length, take, drop, length-take, arith,
}
use native.Mathlib.Decide.{dec_lt, dec_le}
use audioctl.Base.Float.{Float32}
use audioctl.Router.Ring.{RingBuffer, total_samples, rb_write, rb_read}
use audioctl.Router.Ring.Invariant.{IsValid, contents, samples_of}
use audioctl.Router.Ring.Fifo
use audioctl.Router.Ring.Fifo.{Fifo}
use audioctl.Router.Ring.Stored.{length-contents, buffer_present}
use audioctl.Router.Ring.WriteSteps.{write_samples_fits, write_samples_full, rb_write_step}
use audioctl.Router.Ring.ReadSteps.{read_samples_fits, read_samples_short, rb_read_step}

-- The queue that a buffer and the counters of the router stand for.
abbrev pub view : RingBuffer → ℕ → ℕ → Fifo
view rb over under = record { queue = contents rb; overruns = over; underruns = under }

-- On a valid buffer `rb_write` is `Fifo.push` of the block: it is taken whole or dropped and
-- counted, and the invariant is kept. The block has as many samples as the caller says, and the
-- write position does not pass 2 ^ 32.
pub rb_write-push :
    (rb : RingBuffer) (over under : ℕ) (src : List Float32) (frames channels : ℕ)
    → IsValid rb
    → frames * channels ≤ length src
    → rb.write_pos + frames * channels < 2 ^ 32
    → let (rb', over') = rb_write rb over (some src) frames channels in
      IsValid rb'
      × (rb'.write_pos ≤ rb.write_pos + frames * channels)
      × (view rb' over' under ≡ Fifo.push (view rb over under) (take (frames * channels) src))
unfolding Fifo.push
rb_write-push rb over under src frames channels v enough low =
    rw (rb_write_step rb over src frames channels v (omega (arith, low)))
      (elim (dec_lt (length (contents rb) + length xs) total_samples) [
        | yes h ↦
            let (valid, moved, holds, same) =
              write_samples_fits rb (samples_of rb) over src n (buffer_present v) v enough
                (omega (arith, h, length-contents rb, count)) low in
            (valid, omega (arith, moved), ground (arith, holds, same, h))
        | no h ↦
            rw
              (write_samples_full rb (samples_of rb) over src n v (omega (arith, low))
                (omega (arith, h, length-contents rb, count)))
              (v, omega arith, ground (arith, h))
      ])
  where
    n : ℕ
    n = frames * channels

    xs : List Float32
    xs = take n src

    count : length xs ≡ n
    count = omega (arith, length-take n src, enough)

-- On a valid buffer `rb_read` is `Fifo.pop`: what the call leaves at the start of its memory is
-- what the queue hands out, the rest of the memory stays, and the invariant is kept. The size of the
-- request is below 2 ^ 32.
pub rb_read-pop :
    (rb : RingBuffer) (over under : ℕ) (dst : List Float32) (frames channels : ℕ)
    → IsValid rb
    → frames * channels < 2 ^ 32
    → let (rb', under', dst') = rb_read rb under (some dst) frames channels in
      let (q, xs) = Fifo.pop (view rb over under) (frames * channels) in
      IsValid rb'
      × (rb'.write_pos ≡ rb.write_pos)
      × (view rb' over under' ≡ q)
      × (dst' ≡ some (xs ++ drop (frames * channels) dst))
unfolding Fifo.pop
rb_read-pop rb over under dst frames channels v small =
    rw (rb_read_step rb under dst frames channels v small) (elim (dec_le n (length (contents rb))) [
      | yes h ↦
          ground
            (arith, h, read_samples_fits rb under dst n v (omega (arith, h, length-contents rb)))
      | no h ↦
          ground
            (arith, h, read_samples_short rb under dst n v (omega (arith, h, length-contents rb)))
    ])
  where
    n : ℕ
    n = frames * channels
