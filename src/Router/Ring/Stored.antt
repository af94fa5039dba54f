-- ===== src/Router/Ring/Stored.antt =====
-- What the two calls of the ring buffer do to its contents, and storing what the write loop gives.
use audioctl.Base.{ℕ, ◌+◌, ◌-◌, ◌^◌, ◌<◌, ◌≡◌, refl, ap, ◌∙◌, some, List, ◌++◌, length, arith}
use audioctl.Base.Float.{Float32}
use audioctl.Router.Ring.{RingBuffer, total_samples, rb_update_stats}
use audioctl.Router.Ring.Window.{Filled, window, length-window}
use audioctl.Router.Ring.Invariant.{IsValid, contents, samples_of}

pub length-contents : (rb : RingBuffer) → length (contents rb) ≡ rb.write_pos - rb.read_pos
length-contents rb = length-window (samples_of rb) rb.read_pos (rb.write_pos - rb.read_pos)

pub contents-rb_update_stats :
    (rb : RingBuffer) (n : ℕ) → contents (rb_update_stats rb n) ≡ contents rb
unfolding rb_update_stats
contents-rb_update_stats rb n = refl

pub write_pos-rb_update_stats :
    (rb : RingBuffer) (n : ℕ) → (rb_update_stats rb n).write_pos ≡ rb.write_pos
unfolding rb_update_stats
write_pos-rb_update_stats rb n = refl

-- Storing what the write loop gives appends the samples.
pub stored_lem :
    (rb : RingBuffer) (xs : List Float32) (out : List Float32 × ℕ)
    → IsValid rb
    → rb.write_pos - rb.read_pos + length xs < total_samples
    → rb.write_pos + length xs < 2 ^ 32
    → Filled (samples_of rb) rb.read_pos (rb.write_pos - rb.read_pos) xs out
    → let rb' = record rb { buffer = some out.0; write_pos = out.1 } in
      IsValid rb' × (contents rb' ≡ contents rb ++ xs)
stored_lem rb xs out v room low f = (
  record {
    stored = f.size_kept;
    sized = v.sized;
    ordered = omega (arith, f.moved, v.ordered);
    low = omega (arith, f.moved, v.ordered);
    fits = omega (arith, f.moved, v.ordered);
    peaked = v.peaked;
    percent = v.percent;
    reported = v.reported;
  },
  ap (window out.0 rb.read_pos) (omega (arith, f.moved)) ∙ f.holds,
)

pub buffer_present : {rb : RingBuffer} → IsValid rb → rb.buffer ≡ some (samples_of rb)
buffer_present v = ground arith
