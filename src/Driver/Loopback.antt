-- ===== src/Driver/Loopback.antt =====
-- The IO of the plug-in (src/driver/virtual_audio_driver.c): StartIO, StopIO, GetZeroTimeStamp,
-- WillDoIOOperation and DoIOOperation, with the loopback buffer between output and input. Each call
-- is one step.
pub mod Window
pub mod Queue
pub mod Calls
mod Examples
use audioctl.Base.{
  ℕ, zero, suc, ◌+◌, ◌-◌, ◌*◌, ◌/◌, ◌%◌, ◌^◌, Bool, true, false, not, ◌||◌, Option, none, some,
  List, [], ◌∷◌, ◌++◌, length, get_or, set, take, drop, replicate, ◌==◌, ltb, leb, add32, sub32,
  min, if◌then◌else◌,
}
use audioctl.Base.Float.{Float32, f_zero}
use audioctl.Base.Status.{OsStatus, no_err, bad_object_error}
use audioctl.Driver.Clients.{Driver}
use audioctl.Driver.Device.{zero_samples}
use audioctl.Driver.Volume.{app_volume_driver_apply_volume}

abbrev pub buffer_size : ℕ
buffer_size = 16384

-- The static variables that the IO reads and writes.
pub record Io : Type 0 where
  pub io_is_running : ℕ
  pub number_time_stamps : ℕ
  pub anchor_host_time : ℕ
  pub current_frame_count : ℕ
  pub seed : ℕ
  pub loopback_buffer : List Float32
  pub loopback_write_pos : ℕ
  pub loopback_read_pos : ℕ
  pub bad_layout_count : ℕ
  pub io_cycle_count : ℕ

-- `UInt64` addition and subtraction wrap.
abbrev pub add64 : ℕ → ℕ → ℕ
add64 a b = (a + b) % 2 ^ 64

abbrev pub device_object_id : ℕ
device_object_id = 3

-- The time is `mach_absolute_time`.
unfoldable pub start_io : Io → ℕ → ℕ → OsStatus × Io
start_io io device now =
    if not (device == device_object_id)
    then (bad_object_error, io)
    else if io.io_is_running == 0
    then (
      no_err,
      record io {
        io_is_running = add64 io.io_is_running 1;
        number_time_stamps = 0;
        current_frame_count = 0;
        anchor_host_time = now;
        seed = add64 io.seed 1;
      },
    )
    else (no_err, record io { io_is_running = add64 io.io_is_running 1 })

unfoldable pub stop_io : Io → Io
stop_io io =
    if io.io_is_running == 1
    then record io {
      io_is_running = add64 io.io_is_running (2 ^ 64 - 1);
      loopback_write_pos = 0;
      loopback_read_pos = 0;
      loopback_buffer = replicate buffer_size f_zero;
      seed = add64 io.seed 1;
    }
    else record io { io_is_running = add64 io.io_is_running (2 ^ 64 - 1) }

-- Sample time, host time and seed. The parameter is the product of a frame count and the ticks of a
-- frame, which rounds.
unfoldable pub get_zero_time_stamp : (ℕ → ℕ) → Io → ℕ × ℕ × ℕ
get_zero_time_stamp ticks_of io =
    (io.current_frame_count, add64 io.anchor_host_time (ticks_of io.current_frame_count), io.seed)

pub data Operation : Type 0 where
  process_output : Operation
  write_mix : Operation
  read_input : Operation
  other_operation : ℕ → Operation

unfoldable pub will_do_io_operation : Operation → Bool
will_do_io_operation process_output = true
will_do_io_operation write_mix = true
will_do_io_operation read_input = true
will_do_io_operation (other_operation n) = false

-- `AudioBuffer`, with the memory at `mData`.
pub record MainBuffer : Type 0 where
  pub number_channels : ℕ
  pub data_byte_size : ℕ
  pub samples : Option (List Float32)

-- The loop of WriteMix over the samples.
unfoldable pub put_samples : List Float32 → ℕ → List Float32 → List Float32 × ℕ
put_samples buf pos [] = (buf, pos)
put_samples buf pos (x ∷ xs) = put_samples (set buf pos x) ((pos + 1) % buffer_size) xs

unfoldable pub write_loopback : Io → List Float32 → ℕ → Io
write_loopback io samples frames =
    let (buf, pos) =
      put_samples io.loopback_buffer io.loopback_write_pos (take (frames * 2) samples) in
    record io {
      loopback_buffer = buf;
      loopback_write_pos = pos;
      current_frame_count = add64 io.current_frame_count frames;
    }

unfoldable pub available : Io → ℕ
available io =
    if leb io.loopback_read_pos io.loopback_write_pos
    then sub32 io.loopback_write_pos io.loopback_read_pos
    else add32 (sub32 buffer_size io.loopback_read_pos) io.loopback_write_pos

-- The loop of ReadInput: the samples, and the new position.
unfoldable pub get_samples : List Float32 → ℕ → ℕ → List Float32 × ℕ
get_samples buf pos zero = ([], pos)
get_samples buf pos (suc n) =
    let (xs, pos') = get_samples buf ((pos + 1) % buffer_size) n in
    (get_or buf pos f_zero ∷ xs, pos')

-- The state, and the memory of the caller.
unfoldable pub read_loopback : Io → List Float32 → ℕ → Io × List Float32
read_loopback io samples frames =
    let (xs, pos) = get_samples io.loopback_buffer io.loopback_read_pos (frames * 2) in
    if leb (frames * 2) (available io)
    then (record io { loopback_read_pos = pos }, xs ++ drop (frames * 2) samples)
    else (io, zero_samples (frames * 2) samples)

abbrev pub count_cycle : Io → Operation → Io
count_cycle io write_mix = record io { io_cycle_count = add64 io.io_cycle_count 1 }
count_cycle io _ = io

abbrev pub bad_layout : Io → Io
bad_layout io = record io { bad_layout_count = add64 io.bad_layout_count 1 }

-- The product of two floats, which rounds; the driver's clients, whether its lock is free, the time
-- in ms, and the client.
module _ (fmul : Float32 → Float32 → Float32) (g : Driver) (locked : Bool) (now client_id : ℕ) where
  -- Behind the tests of the layout.
  unfoldable pub do_samples : Io → Operation → List Float32 → ℕ → Io × Option (List Float32)
  do_samples io process_output samples frames =
      (io, app_volume_driver_apply_volume fmul g locked now client_id (some samples) frames 2)
  do_samples io write_mix samples frames = (write_loopback io samples frames, some samples)
  do_samples io read_input samples frames =
      let (io', xs) = read_loopback io samples frames in (io', some xs)
  do_samples io (other_operation n) samples frames = (io, some samples)

  abbrev pub do_buffer : Io → Operation → ℕ → MainBuffer → Io × MainBuffer
  do_buffer io op frame_size buffer = elim buffer.samples [
    | none ↦ (bad_layout io, buffer)
    | some samples ↦
        let (io', samples') =
          do_samples io op samples (min (buffer.data_byte_size / 8) frame_size) in
        if not (buffer.number_channels == 2)
        then (bad_layout io, buffer)
        else (io', record buffer { samples = samples' })
  ]

  -- `none` is a null buffer list.
  unfoldable pub do_io_operation :
      Io → Operation → ℕ → Option (List MainBuffer) → Io × Option (List MainBuffer)
  do_io_operation io op frame_size none = (io, none)
  do_io_operation io op frame_size (some []) =
      if frame_size == 0 then (io, some []) else (bad_layout (count_cycle io op), some [])
  do_io_operation io op frame_size (some (buffer ∷ [])) =
      let (io', buffer') = do_buffer (count_cycle io op) op frame_size buffer in
      if frame_size == 0 then (io, some (buffer ∷ [])) else (io', some (buffer' ∷ []))
  do_io_operation io op frame_size (some (b ∷ c ∷ bs)) =
      if frame_size == 0
      then (io, some (b ∷ c ∷ bs))
      else (bad_layout (count_cycle io op), some (b ∷ c ∷ bs))
