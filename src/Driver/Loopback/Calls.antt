-- ===== src/Driver/Loopback/Calls.antt =====
-- The IO of the plug-in over any sequence of calls, and its clock.
use audioctl.Base.{
  ℕ, ◌+◌, ◌*◌, ◌/◌, ◌^◌, ◌<◌, ◌≤◌, ◌≡◌, refl, ap, Bool, Option, none, some, List, [], ◌∷◌, length,
  take, length-replicate, length-take, ◌==◌, min, if_either, Option-cases, inl, inr, arith,
}
use audioctl.Base.Float.{Float32, f_zero}
use audioctl.Base.Status.{no_err}
use audioctl.Driver.Clients.{Driver}
use audioctl.Driver.Loopback.{
  buffer_size, Io, add64, start_io, stop_io, Operation, process_output, write_mix, read_input,
  other_operation, MainBuffer, write_loopback, available, do_samples, do_io_operation,
  get_zero_time_stamp, device_object_id, count_cycle,
}
use audioctl.Driver.Loopback.Queue.{
  IsValid, queue_of, available_lem, available_after, write_loopback-IsValid, read_loopback-IsValid,
}
use audioctl.Driver.Loopback.Window.{window, put_samples_pos}

-- A call of the host: StartIO for an object at a time, StopIO, and an operation for a client, with
-- its clients, whether the lock is free, and the time.
pub data Call : Type 0 where
  start : ℕ → ℕ → Call
  stop : Call
  operation : Driver → Bool → ℕ → ℕ → Operation → ℕ → Option (List MainBuffer) → Call

count_cycle-IsValid : (io : Io) (op : Operation) → IsValid io → IsValid (count_cycle io op)
count_cycle-IsValid io process_output v = v
count_cycle-IsValid io write_mix v = ground arith
count_cycle-IsValid io read_input v = v
count_cycle-IsValid io (other_operation n) v = v

module _ (fmul : Float32 → Float32 → Float32) where
  abbrev pub call : Call → Io → Io
  call (start device now) io = (start_io io device now).1
  call stop io = stop_io io
  call (operation g locked now client_id op frame_size buffers) io =
      (do_io_operation fmul g locked now client_id io op frame_size buffers).0

  do_samples-IsValid :
      (g : Driver) (locked : Bool) (now client_id : ℕ) (io : Io) (op : Operation)
      (samples : List Float32) (frames : ℕ)
      → IsValid io
      → IsValid (do_samples fmul g locked now client_id io op samples frames).0
  unfolding do_samples
  do_samples-IsValid g locked now client_id io process_output samples frames v = v
  do_samples-IsValid g locked now client_id io write_mix samples frames v =
      write_loopback-IsValid io samples frames v
  do_samples-IsValid g locked now client_id io read_input samples frames v =
      read_loopback-IsValid io samples frames v
  do_samples-IsValid g locked now client_id io (other_operation n) samples frames v = v

  do_one-IsValid :
      (g : Driver) (locked : Bool) (now client_id : ℕ) (io : Io) (op : Operation) (frame_size : ℕ)
      (buffer : MainBuffer)
      → IsValid io
      → IsValid
          (do_io_operation fmul g locked now client_id io op frame_size (some (buffer ∷ []))).0
  unfolding do_io_operation
  do_one-IsValid g locked now client_id io op frame_size buffer v =
      if_either (λ (out : Io × Option (List MainBuffer)). IsValid out.0) (frame_size == 0) _ _ v
        (elim (Option-cases buffer.samples) [
          | inl missing ↦ ground (arith, counted)
          | inr (samples, e) ↦ ground (
            arith,
            counted,
            do_samples-IsValid g locked now client_id (count_cycle io op) op samples
                (min (buffer.data_byte_size / 8) frame_size) counted,
          )
        ])
    where
      counted : IsValid (count_cycle io op)
      counted = count_cycle-IsValid io op v

  call-IsValid : (c : Call) (io : Io) → IsValid io → IsValid (call c io)
  unfolding start_io stop_io do_io_operation
  call-IsValid (start device now) io v = ground (arith, v.write_low)
  call-IsValid stop io v = ground (arith, length-replicate buffer_size f_zero)
  call-IsValid (operation g locked now client_id op frame_size none) io v = v
  call-IsValid (operation g locked now client_id op frame_size (some [])) io v =
      ground (arith, count_cycle-IsValid io op v)
  call-IsValid (operation g locked now client_id op frame_size (some (b ∷ []))) io v =
      do_one-IsValid g locked now client_id io op frame_size b v
  call-IsValid (operation g locked now client_id op frame_size (some (b ∷ c ∷ bs))) io v =
      ground (arith, count_cycle-IsValid io op v)

  pub calls_all : List Call → Io → Io
  calls_all [] io = io
  calls_all (c ∷ cs) io = calls_all cs (call c io)

  -- No sequence of calls takes a position of a valid loopback buffer out of it, whatever the sizes
  -- and layouts of the buffers that the host gives.
  pub calls_all-IsValid : (cs : List Call) (io : Io) → IsValid io → IsValid (calls_all cs io)
  unfolding calls_all
  calls_all-IsValid [] io v = v
  calls_all-IsValid (c ∷ cs) io v = calls_all-IsValid cs (call c io) (call-IsValid c io v)

-- A WriteMix of exactly as many samples as the buffer has room for leaves an empty queue: all that
-- was not read before is lost, and the new samples too. The memory holds the samples of the frames,
-- and the buffer is valid.
pub write_loopback_overrun :
    (io : Io) (samples : List Float32) (frames : ℕ)
    → IsValid io
    → frames * 2 ≤ length samples
    → available io + frames * 2 ≡ buffer_size
    → queue_of (write_loopback io samples frames) ≡ []
unfolding write_loopback
write_loopback_overrun io samples frames v enough full =
    ap (window (write_loopback io samples frames).loopback_buffer io.loopback_read_pos) (
      available_after (write_loopback io samples frames) io.loopback_read_pos 0 refl v.read_low
        (omega arith)
        (omega (
          arith,
          length-take (frames * 2) samples,
          (put_samples_pos io.loopback_buffer io.loopback_write_pos (take (frames * 2) samples)
              v.write_low).1,
          (available_lem io v).1,
        )))

-- After the first StartIO at a time the clock stands there with no frames, and after the StopIO
-- that follows it no client runs, the queue is empty, and the seed has moved on by two. The driver
-- had no client running, and the object is the device.
pub start_stop :
    (ticks_of : ℕ → ℕ) (io : Io) (now : ℕ)
    → io.io_is_running ≡ 0
    → now < 2 ^ 64
    → ticks_of 0 ≡ 0
    → let (status, io') = start_io io device_object_id now in
      (status ≡ no_err)
      × (io'.io_is_running ≡ 1)
      × (get_zero_time_stamp ticks_of io' ≡ (0, now, add64 io.seed 1))
      × ((stop_io io').io_is_running ≡ 0)
      × (queue_of (stop_io io') ≡ [])
      × ((stop_io io').seed ≡ add64 io.seed 2)
unfolding start_io stop_io get_zero_time_stamp available
start_stop ticks_of io now idle small zero_ticks = ground arith
