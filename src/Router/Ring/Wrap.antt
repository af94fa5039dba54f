-- ===== src/Router/Ring/Wrap.antt =====
-- What the ring buffer does once `write_pos` has passed 2 ^ 32 and `read_pos` has not: the used
-- space is computed too large by the whole capacity.
use Prim.Native.Nat.{bit_and}
use audioctl.Base.{
  set, ℕ, ◌+◌, ◌-◌, ◌%◌, ◌^◌, ◌≤◌, ◌<◌, ◌≡◌, refl, false, List, [], ◌∷◌, ◌++◌, length, take, drop,
  length-take, ltb, add32, sub32, arith,
}
use audioctl.Base.Float.{Float32}
use audioctl.Router.Ring.{
  RingBuffer, total_samples, buffer_mask, occupied, rb_update_stats, copy_in, copy_out,
  write_samples, read_samples,
}

pub record IsWrapped (rb : RingBuffer) : Type 0 where
  pub sized : rb.capacity ≡ total_samples
  pub passed : rb.write_pos < rb.read_pos
  pub low : rb.read_pos < 2 ^ 32
  pub within : rb.write_pos + 2 ^ 32 ≤ rb.read_pos + total_samples

-- The samples that are written and not yet read, counted modulo 2 ^ 32.
abbrev pub buffered : RingBuffer → ℕ
buffered rb = rb.write_pos + 2 ^ 32 - rb.read_pos

pub occupied_wrapped : {rb : RingBuffer} → IsWrapped rb → occupied rb ≡ buffered rb + total_samples
unfolding occupied
occupied_wrapped w = ground arith

copy_in_pos :
    (buf : List Float32) (w : ℕ) (xs : List Float32)
    → w < 2 ^ 32
    → (copy_in buf w xs).1 ≡ (w + length xs) % 2 ^ 32
unfolding copy_in
copy_in_pos buf w [] h = omega arith
copy_in_pos buf w (x ∷ xs) h =
    omega (arith, copy_in_pos (set buf (bit_and w buffer_mask) x) (add32 w 1) xs (omega arith))

-- In a wrapped buffer a block is taken, and no overrun is counted, whether it fits or not: the
-- write position moves on by the block even where that overwrites samples not yet read.
pub wrapped_overrun_missed :
    (rb : RingBuffer) (buf : List Float32) (over : ℕ) (src : List Float32) (n : ℕ)
    → IsWrapped rb
    → n ≤ length src
    → n ≤ 2 ^ 31
    → let (rb', over') = write_samples rb buf over src n in
      (over' ≡ over) × (rb'.write_pos ≡ (rb.write_pos + n) % 2 ^ 32)
unfolding write_samples rb_update_stats
wrapped_overrun_missed rb buf over src n w enough small = rw test (
  refl,
  omega (arith, copy_in_pos buf rb.write_pos (take n src) (omega arith), length-take n src),
)
  where
    test : ltb (sub32 (sub32 rb.capacity 1) (occupied rb)) n ≡ false
    test = ground (arith, occupied_wrapped w, w.sized, w.within, w.low)

-- In a wrapped buffer a request for up to the whole capacity is granted, and no underrun is
-- counted, whether or not that many samples have been written.
pub wrapped_underrun_missed :
    (rb : RingBuffer) (buf : List Float32) (under : ℕ) (dst : List Float32) (n : ℕ)
    → IsWrapped rb
    → n ≤ total_samples
    → let (_, under', dst') = read_samples rb buf under dst n in
      (under' ≡ under) × (dst' ≡ (copy_out buf rb.read_pos n).0 ++ drop n dst)
unfolding read_samples
wrapped_underrun_missed rb buf under dst n w small = rw test (refl, refl)
  where
    test : ltb (occupied rb) n ≡ false
    test = ground (arith, occupied_wrapped w)
