-- ===== src/Router/Ring.antt =====
-- The ring buffer of src/audio_router.c. Positions are `uint32_t` counters that run freely and are
-- masked at each access. Atomic loads and stores are reads and writes of the record. A function
-- that updates the buffer or a counter of the router returns the new values.
pub mod Mask
pub mod Window
pub mod Invariant
pub mod Fifo
pub mod Stored
pub mod WriteSteps
pub mod ReadSteps
pub mod Refine
pub mod Run
pub mod Wrap
use Prim.Native.Nat.{bit_and}
use audioctl.Base.{
  ℕ, zero, suc, ◌*◌, ◌/◌, Bool, Option, none, some, List, [], ◌∷◌, ◌++◌, get_or, set, take, drop,
  replicate, add32, sub32, mul32, ltb, leb, if◌then◌else◌,
}
use audioctl.Base.Float.{Float32, f_zero}

-- `RouterRingBuffer`; `none` is the null pointer.
pub record RingBuffer : Type 0 where
  pub buffer : Option (List Float32)
  pub capacity : ℕ
  pub write_pos : ℕ
  pub read_pos : ℕ
  pub peak_usage : ℕ
  pub current_usage : ℕ
  pub samples_buffered : ℕ

-- TOTAL_SAMPLES, and ROUTER_BUFFER_MASK one below it.
abbrev pub total_samples : ℕ
total_samples = 2048 * 2

abbrev pub buffer_mask : ℕ
buffer_mask = 4095

-- The flag says whether `aligned_alloc` gives memory.
unfoldable pub rb_init : RingBuffer → Bool → RingBuffer
rb_init rb allocated =
    if allocated
    then record {
      buffer = some (replicate total_samples f_zero);
      capacity = total_samples;
      write_pos = 0;
      read_pos = 0;
      peak_usage = 0;
      current_usage = 0;
      samples_buffered = 0;
    }
    else record rb { buffer = none; capacity = 0 }

unfoldable pub rb_destroy : RingBuffer → RingBuffer
rb_destroy rb = elim rb.buffer [ none ↦ rb | some _ ↦ record rb { buffer = none; capacity = 0 } ]

abbrev pub usage_percent : RingBuffer → ℕ → ℕ
usage_percent rb buffered = mul32 buffered 100 / rb.capacity

unfoldable pub rb_update_stats : RingBuffer → ℕ → RingBuffer
rb_update_stats rb buffered =
    let percent = usage_percent rb buffered in
    record rb {
      current_usage = percent;
      samples_buffered = buffered;
      peak_usage = if ltb rb.peak_usage percent then percent else rb.peak_usage;
    }

-- The used space, as `rb_write` and `rb_read` both compute it from the positions.
unfoldable pub occupied : RingBuffer → ℕ
occupied rb =
    if leb rb.read_pos rb.write_pos
    then sub32 rb.write_pos rb.read_pos
    else add32 (sub32 rb.capacity rb.read_pos) rb.write_pos

-- The write loop; the list is what is left of `data[i .. sample_count)`.
unfoldable pub copy_in : List Float32 → ℕ → List Float32 → List Float32 × ℕ
copy_in buf pos [] = (buf, pos)
copy_in buf pos (x ∷ xs) = copy_in (set buf (bit_and pos buffer_mask) x) (add32 pos 1) xs

-- The read loop: the samples in order, and the new position.
unfoldable pub copy_out : List Float32 → ℕ → ℕ → List Float32 × ℕ
copy_out buf pos zero = ([], pos)
copy_out buf pos (suc n) =
    let (xs, pos') = copy_out buf (add32 pos 1) n in
    (get_or buf (bit_and pos buffer_mask) f_zero ∷ xs, pos')

-- `rb_write` past its null checks: `src` is the memory at `data`. The second result is
-- `overrun_count`. The callers give at least `n` samples.
unfoldable pub write_samples : RingBuffer → List Float32 → ℕ → List Float32 → ℕ → RingBuffer × ℕ
write_samples rb buf overruns src n =
    let size = occupied rb in
    let (buf', pos') = copy_in buf rb.write_pos (take n src) in
    if ltb (sub32 (sub32 rb.capacity 1) size) n then (rb, add32 overruns 1) else (
      rb_update_stats (record rb { buffer = some buf'; write_pos = pos' }) (add32 size n),
      overruns,
    )

unfoldable pub rb_write : RingBuffer → ℕ → Option (List Float32) → ℕ → ℕ → RingBuffer × ℕ
rb_write rb overruns data_in frame_count channels = elim rb.buffer [
  | none ↦ (rb, overruns)
  | some buf ↦ elim data_in [
    | none ↦ (rb, overruns)
    | some src ↦ write_samples rb buf overruns src (mul32 frame_count channels)
  ]
]

-- `rb_read` past its null checks: `dst` is the memory at `data`, whose first `n` samples are
-- overwritten. The results are the buffer, `underrun_count` and that memory.
unfoldable pub read_samples :
    RingBuffer → List Float32 → ℕ → List Float32 → ℕ → RingBuffer × ℕ × List Float32
read_samples rb buf underruns dst n =
    let available = occupied rb in
    let (xs, pos') = copy_out buf rb.read_pos n in
    if ltb available n
    then (rb_update_stats rb available, add32 underruns 1, replicate n f_zero ++ drop n dst)
    else (
      rb_update_stats (record rb { read_pos = pos' }) (sub32 available n),
      underruns,
      xs ++ drop n dst,
    )

unfoldable pub rb_read :
    RingBuffer → ℕ → Option (List Float32) → ℕ → ℕ → RingBuffer × ℕ × Option (List Float32)
rb_read rb underruns data_out frame_count channels = elim rb.buffer [
  | none ↦ (rb, underruns, data_out)
  | some buf ↦ elim data_out [
    | none ↦ (rb, underruns, none)
    | some dst ↦
        let (rb', underruns', dst') =
          read_samples rb buf underruns dst (mul32 frame_count channels) in
        (rb', underruns', some dst')
  ]
]
