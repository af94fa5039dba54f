-- ===== src/Router/Ring/ReadSteps.antt =====
-- A read of a valid ring buffer, with enough samples or too few.
use audioctl.Base.{
  ℕ, ◌+◌, ◌-◌, ◌*◌, ◌^◌, ◌≤◌, ◌<◌, ◌≡◌, refl, sym, ap, ◌∙◌, true, false, some, List, ◌++◌, take,
  drop, replicate, ltb, add32, sub32, arith,
}
use native.Mathlib.Nat.{mod-eq_of_lt}
use audioctl.Base.Float.{Float32, f_zero}
use audioctl.Router.Ring.{RingBuffer, occupied, read_samples, rb_read}
use audioctl.Router.Ring.Window.{copy_out_lem, window, drop-window, take-window}
use audioctl.Router.Ring.Invariant.{
  IsValid, contents, samples_of, occupied_lem, rb_update_stats-IsValid,
}
use audioctl.Router.Ring.Stored.{
  contents-rb_update_stats, write_pos-rb_update_stats, buffer_present,
}

-- Enough samples are handed out in order.
pub read_samples_fits :
    (rb : RingBuffer) (under : ℕ) (dst : List Float32) (n : ℕ)
    → IsValid rb
    → n ≤ rb.write_pos - rb.read_pos
    → let (rb', under', dst') = read_samples rb (samples_of rb) under dst n in
      IsValid rb'
      × (rb'.write_pos ≡ rb.write_pos)
      × (contents rb' ≡ drop n (contents rb))
      × (under' ≡ under)
      × (dst' ≡ take n (contents rb) ++ drop n dst)
unfolding read_samples
read_samples_fits rb under dst n v enough =
    rw (test, copy_out_lem (samples_of rb) rb.read_pos n (omega (arith, v.low, v.ordered)))
      (
        rb_update_stats-IsValid rb' left new (omega (arith, occupied_lem v, v.fits, v.low)),
        write_pos-rb_update_stats rb' left,
        contents-rb_update_stats rb' left ∙ dropped,
        refl,
        ap (λ xs. xs ++ drop n dst) taken,
      )
  where
    test : ltb (occupied rb) n ≡ false
    test = ground (arith, occupied_lem v)

    rb' : RingBuffer
    rb' = record rb { read_pos = rb.read_pos + n }

    left : ℕ
    left = sub32 (occupied rb) n

    new : IsValid rb'
    new = record {
      stored = v.stored;
      sized = v.sized;
      ordered = omega (arith, v.ordered);
      low = v.low;
      fits = omega (arith, v.fits);
      peaked = v.peaked;
      percent = v.percent;
      reported = v.reported;
    }

    split : rb.write_pos - rb.read_pos ≡ n + (rb.write_pos - (rb.read_pos + n))
    split = omega (arith, v.ordered)

    dropped : contents rb' ≡ drop n (contents rb)
    dropped = sym (
        ap (λ k. drop n (window (samples_of rb) rb.read_pos k)) split
        ∙ drop-window (samples_of rb) rb.read_pos n (rb.write_pos - (rb.read_pos + n)))

    taken : window (samples_of rb) rb.read_pos n ≡ take n (contents rb)
    taken = sym (
        ap (λ k. take n (window (samples_of rb) rb.read_pos k)) split
        ∙ take-window (samples_of rb) rb.read_pos n (rb.write_pos - (rb.read_pos + n)))

-- Too few samples stay where they are, and silence is handed out.
pub read_samples_short :
    (rb : RingBuffer) (under : ℕ) (dst : List Float32) (n : ℕ)
    → IsValid rb
    → rb.write_pos - rb.read_pos < n
    → let (rb', under', dst') = read_samples rb (samples_of rb) under dst n in
      IsValid rb'
      × (rb'.write_pos ≡ rb.write_pos)
      × (contents rb' ≡ contents rb)
      × (under' ≡ add32 under 1)
      × (dst' ≡ replicate n f_zero ++ drop n dst)
unfolding read_samples
read_samples_short rb under dst n v short = rw test (
  rb_update_stats-IsValid rb (occupied rb) v (omega (arith, occupied_lem v, v.fits)),
  write_pos-rb_update_stats rb (occupied rb),
  contents-rb_update_stats rb (occupied rb),
  refl,
  refl,
)
  where
    test : ltb (occupied rb) n ≡ true
    test = ground (arith, occupied_lem v)

pub rb_read_step :
    (rb : RingBuffer) (under : ℕ) (dst : List Float32) (frames channels : ℕ)
    → IsValid rb
    → frames * channels < 2 ^ 32
    → let (rb', under', dst') = read_samples rb (samples_of rb) under dst (frames * channels) in
      rb_read rb under (some dst) frames channels ≡ (rb', under', some dst')
unfolding rb_read
rb_read_step rb under dst frames channels v small =
    ground (arith, buffer_present v, mod-eq_of_lt {n = frames * channels} {m = 2 ^ 32} small)
