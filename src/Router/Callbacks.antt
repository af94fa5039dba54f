-- ===== src/Router/Callbacks.antt =====
-- The IO callbacks of src/audio_router.c. Both return `noErr` on every path; the models return the
-- state and, for the output, the buffer list.
pub mod Flow
use audioctl.Base.{
  ℕ, zero, suc, ◌+◌, ◌*◌, ◌/◌, ◌%◌, ◌^◌, Bool, not, ◌&&◌, ◌||◌, Option, none, some, List, [], ◌∷◌,
  ◌==◌, mul32, if◌then◌else◌,
}
use audioctl.Base.Float.{Float32, f_zero, f_one, flt}
use audioctl.Router.Ring.{rb_write, rb_read}
use audioctl.Router.Context.{RouterContext, AudioBuffer}

-- mDataByteSize / (sizeof (float) * g_router.channels)
abbrev pub frames_of : RouterContext → AudioBuffer → ℕ
frames_of ctx buffer = buffer.data_byte_size / (4 * ctx.channels)

-- The part of `input_callback` behind its tests.
pub take_input : RouterContext → AudioBuffer → List Float32 → RouterContext
take_input ctx buffer src =
    let frames = frames_of ctx buffer in
    let (rb, overruns) =
      rb_write ctx.ring_buffer ctx.overrun_count (some src) frames ctx.channels in
    record ctx {
      ring_buffer = rb;
      overrun_count = overruns;
      frames_transferred = (ctx.frames_transferred + frames) % 2 ^ 64;
    }

unfoldable pub input_callback : RouterContext → List AudioBuffer → RouterContext
unfolding take_input
input_callback ctx [] = ctx
input_callback ctx (buffer ∷ buffers) = elim buffer.samples [
  | none ↦ ctx
  | some src ↦
      if not ctx.is_running || buffer.data_byte_size == 0 then ctx else take_input ctx buffer src
]

-- The product of two floats, which rounds.
module _ (fmul : Float32 → Float32 → Float32) where
  -- The gain loop over the first `n` samples.
  pub apply_gain : ℕ → Float32 → List Float32 → List Float32
  apply_gain zero gain xs = xs
  apply_gain (suc n) gain [] = []
  apply_gain (suc n) gain (x ∷ xs) = fmul x gain ∷ apply_gain n gain xs

  -- The part of `output_callback` behind its tests: the state and the memory at `mData`.
  pub give_output :
      RouterContext → AudioBuffer → List Float32 → RouterContext × Option (List Float32)
  unfolding apply_gain
  give_output ctx buffer dst =
      let frames = frames_of ctx buffer in
      let gain = ctx.output_gain in
      let (rb, underruns, filled) =
        rb_read ctx.ring_buffer ctx.underrun_count (some dst) frames ctx.channels in
      (
        record ctx { ring_buffer = rb; underrun_count = underruns },
        elim filled [
          | none ↦ none
          | some xs ↦ some (
              if flt gain f_one && flt f_zero gain
              then apply_gain (mul32 frames ctx.channels) gain xs
              else xs)
        ],
      )

  unfoldable pub output_callback :
      RouterContext → List AudioBuffer → RouterContext × List AudioBuffer
  unfolding give_output
  output_callback ctx [] = (ctx, [])
  output_callback ctx (buffer ∷ buffers) = elim buffer.samples [
    | none ↦ (ctx, buffer ∷ buffers)
    | some dst ↦
        if not ctx.is_running || buffer.data_byte_size == 0
        then (ctx, buffer ∷ buffers)
        else (let (ctx', filled) = give_output ctx buffer dst in
            (ctx', record buffer { samples = filled } ∷ buffers))
  ]
