-- ===== src/Driver/Loopback/Queue.antt =====
-- The loopback buffer as a queue of samples, and the state of the IO over any sequence of calls.
use audioctl.Base.{
  ℕ, ◌+◌, ◌-◌, ◌*◌, ◌%◌, ◌<◌, ◌≤◌, ◌≡◌, refl, ap, sym, ◌∙◌, List, ◌++◌, length, take, drop,
  length-take, inl, inr, ◌⊎◌, arith,
}
use audioctl.Base.Float.{Float32}
use audioctl.Driver.Device.{zero_samples}
use audioctl.Driver.Loopback.{
  buffer_size, Io, add64, put_samples, write_loopback, available, read_loopback,
}
use audioctl.Driver.Loopback.Window.{
  window, length-window, get_samples_lem, take-window, drop-window, put_samples_lem,
  put_samples_pos,
}
use native.Mathlib.Decide.{dec_le}

-- The buffer has its size, and both positions lie in it.
pub record IsValid (io : Io) : Type 0 where
  pub size_kept : length io.loopback_buffer ≡ buffer_size
  pub write_low : io.loopback_write_pos < buffer_size
  pub read_low : io.loopback_read_pos < buffer_size

-- The samples that an input can read.
abbrev pub queue_of : Io → List Float32
queue_of io = window io.loopback_buffer io.loopback_read_pos (available io)

pub available_lem :
    (io : Io)
    → IsValid io
    → (available io < buffer_size)
      × (io.loopback_write_pos ≡ (io.loopback_read_pos + available io) % buffer_size)
unfolding available
available_lem io v = ground (arith, v.write_low, v.read_low)

pub write_loopback-IsValid :
    (io : Io) (samples : List Float32) (frames : ℕ)
    → IsValid io
    → IsValid (write_loopback io samples frames)
unfolding write_loopback
write_loopback-IsValid io samples frames v = ground (
  arith,
  put_samples_pos io.loopback_buffer io.loopback_write_pos (take (frames * 2) samples) v.write_low,
)

pub read_loopback-IsValid :
    (io : Io) (samples : List Float32) (frames : ℕ)
    → IsValid io
    → IsValid (read_loopback io samples frames).0
unfolding read_loopback
read_loopback-IsValid io samples frames v =
    ground (arith, get_samples_lem io.loopback_buffer io.loopback_read_pos (frames * 2) v.read_low)

-- The position after a write that fits decides how many samples there are.
pub available_after :
    (io : Io) (r n : ℕ)
    → io.loopback_read_pos ≡ r
    → r < buffer_size
    → n < buffer_size
    → io.loopback_write_pos ≡ (r + n) % buffer_size
    → available io ≡ n
unfolding available
available_after io r n e low small e' = ground arith

-- A WriteMix whose samples still fit appends them to the queue, and moves the clock on by its
-- frames. The memory holds the samples of the frames, and the buffer is valid.
pub write_loopback-append :
    (io : Io) (samples : List Float32) (frames : ℕ)
    → IsValid io
    → frames * 2 ≤ length samples
    → available io + frames * 2 < buffer_size
    → let io' = write_loopback io samples frames in
      (queue_of io' ≡ queue_of io ++ take (frames * 2) samples)
      × (io'.current_frame_count ≡ add64 io.current_frame_count frames)
unfolding write_loopback
write_loopback-append io samples frames v enough room = (
  ap (window (put_samples buf w xs).0 r) held
      ∙ put_samples_lem buf w r n xs v.size_kept v.read_low (omega (arith, count)) place,
  refl,
)
  where
    buf : List Float32
    buf = io.loopback_buffer

    w : ℕ
    w = io.loopback_write_pos

    r : ℕ
    r = io.loopback_read_pos

    n : ℕ
    n = available io

    xs : List Float32
    xs = take (frames * 2) samples

    count : length xs ≡ frames * 2
    count = omega (arith, length-take (frames * 2) samples, enough)

    place : w ≡ (r + n) % buffer_size
    place = (available_lem io v).1

    held : available (write_loopback io samples frames) ≡ n + length xs
    held =
        available_after (write_loopback io samples frames) r (n + length xs) refl v.read_low
          (omega (arith, count)) (omega (arith, place, (put_samples_pos buf w xs v.write_low).1))

-- A read of no more than there is.
read_loopback_fits :
    (io : Io) (samples : List Float32) (frames m : ℕ)
    → IsValid io
    → available io ≡ frames * 2 + m
    → let (io', out) = read_loopback io samples frames in
      (out ≡ take (frames * 2) (queue_of io) ++ drop (frames * 2) samples)
      × (queue_of io' ≡ drop (frames * 2) (queue_of io))
unfolding read_loopback
read_loopback_fits io samples frames m v e = (
  ap (λ p. p.1) step
      ∙ ap (λ t. t ++ drop k samples)
          (sym (take-window buf r k m) ∙ ap (λ n. take k (window buf r n)) (sym e)),
  ap (λ p. queue_of p.0) step
      ∙ ap (window buf ((r + k) % buffer_size)) left
      ∙ sym (drop-window buf r k m v.read_low)
      ∙ ap (λ n. drop k (window buf r n)) (sym e),
)
  where
    buf : List Float32
    buf = io.loopback_buffer

    r : ℕ
    r = io.loopback_read_pos

    k : ℕ
    k = frames * 2

    moved : Io
    moved = record io { loopback_read_pos = (r + k) % buffer_size }

    step : read_loopback io samples frames ≡ (moved, window buf r k ++ drop k samples)
    step = ground (arith, get_samples_lem buf r k v.read_low)

    left : available moved ≡ m
    left =
        available_after moved ((r + k) % buffer_size) m refl (omega arith)
          (omega (arith, (available_lem io v).0)) (omega (arith, (available_lem io v).1))

-- A ReadInput takes its samples from the front of the queue, or, where the queue is shorter, gives
-- silence and leaves the queue as it is. The buffer is valid.
pub read_loopback-take :
    (io : Io) (samples : List Float32) (frames : ℕ)
    → IsValid io
    → let (io', out) = read_loopback io samples frames in
      ((frames * 2 ≤ length (queue_of io))
        × (out ≡ take (frames * 2) (queue_of io) ++ drop (frames * 2) samples)
        × (queue_of io' ≡ drop (frames * 2) (queue_of io)))
      ⊎ ((length (queue_of io) < frames * 2)
          × (out ≡ zero_samples (frames * 2) samples)
          × (queue_of io' ≡ queue_of io))
unfolding read_loopback
read_loopback-take io samples frames v = elim (dec_le (frames * 2) (available io)) [
  | yes fits ↦
      let (same, left) =
        read_loopback_fits io samples frames (available io - frames * 2) v (omega arith) in
      inl (omega (arith, count), same, left)
  | no short ↦ inr (omega (arith, count), ground arith, ap queue_of (kept short))
]
  where
    count : length (queue_of io) ≡ available io
    count = length-window io.loopback_buffer io.loopback_read_pos (available io)

    kept : ¬ (frames * 2 ≤ available io) → (read_loopback io samples frames).0 ≡ io
    kept short = ground arith
