-- ===== src/Router/Callbacks/Flow.antt =====
-- What passes through the callbacks of a running route.
use audioctl.Base.{
  ℕ, zero, suc, refl, ◌∙◌, [], map, ◌+◌, ◌*◌, ◌/◌, ◌%◌, ◌^◌, ◌≤◌, ◌<◌, ◌≡◌, ap, true, some, List,
  ◌∷◌, ◌++◌, length, take, drop, arith, ◌&&◌, if◌then◌else◌,
}
use audioctl.Base.Float.{Float32, f_zero, f_one, flt}
use audioctl.Router.Ring.Invariant.{IsValid}
use audioctl.Router.Ring.Fifo
use audioctl.Router.Ring.Refine.{view, rb_write-push, rb_read-pop}
use audioctl.Router.Context.{RouterContext, AudioBuffer}
use audioctl.Router.Callbacks.{frames_of, input_callback, apply_gain, output_callback}

-- The router's ring buffer and counters, as a queue.
abbrev pub queue_of : RouterContext → Fifo.Fifo
queue_of ctx = view ctx.ring_buffer ctx.overrun_count ctx.underrun_count

-- A stereo route that runs, with a valid ring buffer.
pub record IsRunning (ctx : RouterContext) : Type 0 where
  pub running : ctx.is_running ≡ true
  pub stereo : ctx.channels ≡ 2
  pub ring : IsValid ctx.ring_buffer

frames_of_stereo :
    (ctx : RouterContext) (buffer : AudioBuffer)
    → ctx.channels ≡ 2
    → frames_of ctx buffer ≡ buffer.data_byte_size / 8
frames_of_stereo ctx buffer e = ap (λ c. buffer.data_byte_size / (4 * c)) e

-- The input callback pushes the block of its first buffer on the queue, and counts its frames as
-- transferred also where the block is dropped. The buffer holds the bytes that it says, and the
-- write position does not pass 2 ^ 32.
pub input_callback-push :
    (ctx : RouterContext) (buffer : AudioBuffer) (src : List Float32) (rest : List AudioBuffer)
    → IsRunning ctx
    → buffer.samples ≡ some src
    → 0 < buffer.data_byte_size
    → buffer.data_byte_size / 8 * 2 ≤ length src
    → ctx.ring_buffer.write_pos + buffer.data_byte_size / 8 * 2 < 2 ^ 32
    → let frames = buffer.data_byte_size / 8 in
      let ctx' = input_callback ctx (buffer ∷ rest) in
      IsRunning ctx'
      × (queue_of ctx' ≡ Fifo.push (queue_of ctx) (take (frames * 2) src))
      × (ctx'.frames_transferred ≡ (ctx.frames_transferred + frames) % 2 ^ 64)
unfolding input_callback
input_callback-push ctx buffer src rest r here some_bytes enough low = ground (
  arith,
  frames_of_stereo ctx buffer r.stereo,
  rb_write-push ctx.ring_buffer ctx.overrun_count ctx.underrun_count src (buffer.data_byte_size / 8)
      2 r.ring enough low,
)

-- The loop multiplies the first `n` samples, and leaves the rest.
apply_gain_lem :
    (fmul : Float32 → Float32 → Float32) (n : ℕ) (gain : Float32) (xs : List Float32)
    → apply_gain fmul n gain xs ≡ map (λ x. fmul x gain) (take n xs) ++ drop n xs
unfolding apply_gain
apply_gain_lem fmul zero gain xs = refl
apply_gain_lem fmul (suc n) gain [] = refl
apply_gain_lem fmul (suc n) gain (x ∷ xs) =
    ap (λ ys. fmul x gain ∷ ys) (apply_gain_lem fmul n gain xs)

popped :
    (fmul : Float32 → Float32 → Float32) (ctx : RouterContext) (buffer : AudioBuffer)
    (dst : List Float32) (rest : List AudioBuffer)
    → IsRunning ctx
    → buffer.samples ≡ some dst
    → 0 < buffer.data_byte_size
    → buffer.data_byte_size < 2 ^ 32
    → let frames = buffer.data_byte_size / 8 in
      let (ctx', buffers) = output_callback fmul ctx (buffer ∷ rest) in
      let (q, xs) = Fifo.pop (queue_of ctx) (frames * 2) in
      let filled = xs ++ drop (frames * 2) dst in
      let gain = ctx.output_gain in
      IsRunning ctx'
      × (queue_of ctx' ≡ q)
      × (buffers
          ≡ record buffer {
            samples = some (
                if flt gain f_one && flt f_zero gain
                then apply_gain fmul (frames * 2) gain filled
                else filled);
          }
            ∷ rest)
unfolding output_callback
popped fmul ctx buffer dst rest r here some_bytes small = ground (
  arith,
  frames_of_stereo ctx buffer r.stereo,
  rb_read-pop ctx.ring_buffer ctx.overrun_count ctx.underrun_count dst (buffer.data_byte_size / 8) 2
      r.ring (omega (arith, small)),
)

-- The output callback hands out what the queue pops for the frames of its first buffer, each sample
-- multiplied by the gain where that lies strictly between 0 and 1, and keeps the rest of the buffer.
pub output_callback-pop :
    (fmul : Float32 → Float32 → Float32) (ctx : RouterContext) (buffer : AudioBuffer)
    (dst : List Float32) (rest : List AudioBuffer)
    → IsRunning ctx
    → buffer.samples ≡ some dst
    → 0 < buffer.data_byte_size
    → buffer.data_byte_size < 2 ^ 32
    → let frames = buffer.data_byte_size / 8 in
      let (ctx', buffers) = output_callback fmul ctx (buffer ∷ rest) in
      let (q, xs) = Fifo.pop (queue_of ctx) (frames * 2) in
      let filled = xs ++ drop (frames * 2) dst in
      let gain = ctx.output_gain in
      IsRunning ctx'
      × (queue_of ctx' ≡ q)
      × (buffers
          ≡ record buffer {
            samples = some (
                if flt gain f_one && flt f_zero gain
                then map (λ x. fmul x gain) (take (frames * 2) filled) ++ drop (frames * 2) filled
                else filled);
          }
            ∷ rest)
output_callback-pop fmul ctx buffer dst rest r here some_bytes small =
    let frames = buffer.data_byte_size / 8 in
    let gain = ctx.output_gain in
    let filled = (Fifo.pop (queue_of ctx) (frames * 2)).1 ++ drop (frames * 2) dst in
    let (still, queue, out) = popped fmul ctx buffer dst rest r here some_bytes small in
    (
      still,
      queue,
      out
          ∙ ap
              (λ ys.
                record buffer {
                  samples = some (if flt gain f_one && flt f_zero gain then ys else filled);
                }
                ∷ rest)
              (apply_gain_lem fmul (frames * 2) gain filled),
    )
