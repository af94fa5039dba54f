-- ===== src/Driver/Device.antt =====
-- The virtual device of src/driver/virtual_audio_device.c: its state, its start and stop, its
-- volume, and the processing of a block. A null pointer is `none`, and a null `mData` too. The mutex
-- makes each operation one step, so the models are functions from state to state.
pub mod State
pub mod Memory
pub mod Output
use audioctl.Base.{
  ℕ, zero, suc, ◌+◌, ◌*◌, ◌%◌, ◌^◌, Bool, true, false, not, ◌&&◌, ◌||◌, Option, none, some, List,
  [], ◌∷◌, ◌++◌, length, map, replicate, ◌==◌, mul32, if◌then◌else◌,
}
use audioctl.Base.Float.{Float32, f_zero, f_one, f_minus_one, f_hundred, flt, fle}
use audioctl.Base.Status.{
  OsStatus, no_err, mem_full_error, illegal_operation_error, not_running_error,
}

pub data DeviceState : Type 0 where
  uninitialized : DeviceState
  stopped : DeviceState
  running : DeviceState
  error : DeviceState

-- `AudioOutputStream`, without its constant format; `samples` is the memory at `mData` of the one
-- buffer of `bufferList`.
pub record AudioOutputStream : Type 0 where
  pub stream_id : ℕ
  pub is_active : Bool
  pub samples : Option (List Float32)
  pub buffer_frame_size : ℕ

-- `VirtualAudioDevice`, without its constant names, its mutex and the clock, which no function of
-- the file reads.
pub record VirtualAudioDevice : Type 0 where
  pub device_id : ℕ
  pub state : DeviceState
  pub device_is_running : Bool
  pub volume_control_value : Float32
  pub mute_state : Bool
  pub output_stream : AudioOutputStream

-- `memset` to 0 of the buffer, if there is one.
abbrev pub clear : Option (List Float32) → Option (List Float32)
clear none = none
clear (some xs) = some (replicate (length xs) f_zero)

abbrev start_stream : AudioOutputStream → AudioOutputStream
start_stream s =
    if not s.is_active then record s { samples = clear s.samples; is_active = true } else s

abbrev stop_stream : AudioOutputStream → AudioOutputStream
stop_stream s = if s.is_active then record s { is_active = false; samples = clear s.samples } else s

unfoldable pub virtual_device_start : VirtualAudioDevice → OsStatus × VirtualAudioDevice
virtual_device_start d = elim d.state [
  | running ↦ (no_err, d)
  | stopped ↦ (
    no_err,
    record d {
      output_stream = start_stream d.output_stream;
      state = running;
      device_is_running = true;
    },
  )
  | uninitialized ↦ (illegal_operation_error, d)
  | error ↦ (illegal_operation_error, d)
]

unfoldable pub virtual_device_stop : VirtualAudioDevice → OsStatus × VirtualAudioDevice
virtual_device_stop d = elim d.state [
  | stopped ↦ (no_err, d)
  | running ↦ (
    no_err,
    record d {
      output_stream = stop_stream d.output_stream;
      state = stopped;
      device_is_running = false;
    },
  )
  | uninitialized ↦ (illegal_operation_error, d)
  | error ↦ (illegal_operation_error, d)
]

unfoldable pub virtual_device_set_mute : VirtualAudioDevice → Bool → OsStatus × VirtualAudioDevice
virtual_device_set_mute d mute = (no_err, record d { mute_state = mute })

unfoldable pub virtual_device_get_mute : VirtualAudioDevice → Bool
virtual_device_get_mute d = d.mute_state

unfoldable pub virtual_device_set_volume :
    VirtualAudioDevice → Float32 → OsStatus × VirtualAudioDevice
virtual_device_set_volume d volume =
    if flt volume f_zero || flt f_hundred volume
    then (illegal_operation_error, d)
    else (no_err, record d { volume_control_value = volume })

unfoldable pub virtual_device_get_volume : VirtualAudioDevice → Float32
virtual_device_get_volume d = d.volume_control_value

unfoldable pub virtual_device_get_state : VirtualAudioDevice → DeviceState
virtual_device_get_state d = d.state

unfoldable pub virtual_device_is_running : VirtualAudioDevice → Bool
virtual_device_is_running d = d.device_is_running

-- `AudioBuffer` of the plug-in interface, with the memory at `mData`.
pub record OutputBuffer : Type 0 where
  pub number_channels : ℕ
  pub data_byte_size : ℕ
  pub samples : List Float32

-- `memset` to 0 of the first `n` samples.
unfoldable pub zero_samples : ℕ → List Float32 → List Float32
zero_samples zero xs = xs
zero_samples (suc n) [] = []
zero_samples (suc n) (x ∷ xs) = f_zero ∷ zero_samples n xs

-- The two tests on a sample behind its product.
abbrev pub clamp_sample : Float32 → Float32
clamp_sample x = if flt f_one x then f_one else if flt x f_minus_one then f_minus_one else x

-- The product and the quotient of two floats, which round.
module _ (fmul fdiv : Float32 → Float32 → Float32) where
  -- The loop over the first `sample_count` samples.
  unfoldable pub apply_volume_and_clamp : List Float32 → ℕ → Float32 → List Float32
  apply_volume_and_clamp xs zero scale = xs
  apply_volume_and_clamp [] (suc n) scale = []
  apply_volume_and_clamp (x ∷ xs) (suc n) scale =
      clamp_sample (fmul x scale) ∷ apply_volume_and_clamp xs n scale

  -- One turn of the loop over the buffers, whose memory has room for the samples: the code writes
  -- past a shorter one.
  unfoldable pub process_buffer : VirtualAudioDevice → ℕ → OutputBuffer → OutputBuffer
  process_buffer d frame_count buffer =
      let volume = d.volume_control_value in
      let scale = if d.mute_state then f_zero else fdiv volume f_hundred in
      let sample_count = mul32 frame_count buffer.number_channels in
      record buffer {
        samples =
            if d.mute_state || fle volume f_zero
            then zero_samples sample_count buffer.samples
            else apply_volume_and_clamp buffer.samples sample_count scale;
        data_byte_size = mul32 sample_count 4;
      }

  unfoldable pub virtual_device_process_output :
      VirtualAudioDevice → Option (List OutputBuffer) → ℕ → OsStatus × Option (List OutputBuffer)
  virtual_device_process_output d output_data frame_count = elim output_data [
    | none ↦ (illegal_operation_error, none)
    | some buffers ↦
        if frame_count == 0 then (illegal_operation_error, some buffers) else elim d.state [
          | running ↦ (no_err, some (map (process_buffer d frame_count) buffers))
          | uninitialized ↦ (not_running_error, some buffers)
          | stopped ↦ (not_running_error, some buffers)
          | error ↦ (not_running_error, some buffers)
        ]
  ]
