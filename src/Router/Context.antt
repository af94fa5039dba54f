-- ===== src/Router/Context.antt =====
-- The state of the router, `g_router` of src/audio_router.c, and the audio buffers that the
-- framework hands to its callbacks.
use audioctl.Base.{ℕ, ◌/◌, Bool, Option, List, ◌==◌, mul32, if◌then◌else◌}
use audioctl.Base.Float.{Float32}
use audioctl.Router.Ring.{RingBuffer}

-- `AudioRouterContext`. `none` is `kAudioObjectUnknown` for a device. The fields `latency_ms` and
-- `watermark_peak`, and the handles of the IO procs, which only the framework reads, are left out.
pub record RouterContext : Type 0 where
  pub input_device : Option ℕ
  pub output_device : Option ℕ
  pub ring_buffer : RingBuffer
  pub is_running : Bool
  pub sample_rate : ℕ
  pub channels : ℕ
  pub bits_per_channel : ℕ
  pub frames_transferred : ℕ
  pub underrun_count : ℕ
  pub overrun_count : ℕ
  pub start_time : ℕ
  pub output_gain : Float32

-- `AudioBuffer`: the samples are those of `mData`, `none` for a null pointer.
pub record AudioBuffer : Type 0 where
  pub number_channels : ℕ
  pub data_byte_size : ℕ
  pub samples : Option (List Float32)

-- The sample rate is a `uint32_t`.
unfoldable pub calculate_latency_ms : ℕ → ℕ → ℕ
calculate_latency_ms buffered_frames sample_rate =
    if sample_rate == 0 then 0 else mul32 buffered_frames 1000 / sample_rate
