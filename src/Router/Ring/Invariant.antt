-- ===== src/Router/Ring/Invariant.antt =====
-- The representation invariant of the ring buffer, kept while the positions stay below 2 ^ 32.
use audioctl.Base.{
  ℕ, ◌-◌, ◌^◌, ◌≤◌, ◌<◌, ◌≡◌, refl, true, none, some, List, [], length, length-replicate, arith,
}
use audioctl.Base.Float.{Float32, f_zero}
use audioctl.Router.Ring.{RingBuffer, total_samples, rb_init, rb_update_stats, occupied}
use audioctl.Router.Ring.Window.{window}

abbrev pub samples_of : RingBuffer → List Float32
samples_of rb = elim rb.buffer [ none ↦ [] | some buf ↦ buf ]

pub record IsValid (rb : RingBuffer) : Type 0 where
  pub stored : length (samples_of rb) ≡ total_samples
  pub sized : rb.capacity ≡ total_samples
  pub ordered : rb.read_pos ≤ rb.write_pos
  pub low : rb.write_pos < 2 ^ 32
  pub fits : rb.write_pos - rb.read_pos < total_samples
  pub peaked : rb.current_usage ≤ rb.peak_usage
  pub percent : rb.peak_usage ≤ 100
  pub reported : rb.samples_buffered < total_samples

-- The samples that have been written and not yet read, oldest first.
abbrev pub contents : RingBuffer → List Float32
contents rb = window (samples_of rb) rb.read_pos (rb.write_pos - rb.read_pos)

pub occupied_lem : {rb : RingBuffer} → IsValid rb → occupied rb ≡ rb.write_pos - rb.read_pos
unfolding occupied
occupied_lem v = ground arith

-- The statistics keep the rest of the invariant, if no more is reported than fits.
pub rb_update_stats-IsValid :
    (rb : RingBuffer) (n : ℕ) → IsValid rb → n < total_samples → IsValid (rb_update_stats rb n)
unfolding rb_update_stats
rb_update_stats-IsValid rb n v h = ground arith

-- A fresh buffer is valid and holds nothing.
pub rb_init-IsValid :
    (rb : RingBuffer) → IsValid (rb_init rb true) × (contents (rb_init rb true) ≡ [])
unfolding rb_init
rb_init-IsValid rb = (
  record {
    stored = length-replicate total_samples f_zero;
    sized = refl;
    ordered = omega arith;
    low = omega arith;
    fits = omega arith;
    peaked = omega arith;
    percent = omega arith;
    reported = omega arith;
  },
  refl,
)
