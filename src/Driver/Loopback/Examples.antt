-- ===== src/Driver/Loopback/Examples.antt =====
-- The theorems of the plug-in's IO at concrete inputs.
use audioctl.Base.{
  ◌*◌, ◌<◌, ◌≤◌, ◌≡◌, refl, false, some, List, [], ◌∷◌, ◌++◌, length, take, drop, replicate,
  length-replicate, ◌⊎◌, arith,
}
use audioctl.Base.Float.{Float32, f_zero}
use audioctl.Ipc.Client.{ipc_client_init}
use audioctl.Driver.Clients.{Driver}
use audioctl.Driver.Device.{zero_samples}
use audioctl.Driver.Loopback.{
  buffer_size, Io, add64, write_mix, read_input, write_loopback, read_loopback, available,
}
use audioctl.Driver.Loopback.Queue.{IsValid, queue_of, write_loopback-append, read_loopback-take}
use audioctl.Driver.Loopback.Calls.{Call, start, stop, operation, write_loopback_overrun}

-- Three samples from the end of the buffer, and over it, are waiting.
abbrev io : Io
io = record {
  io_is_running = 0;
  number_time_stamps = 0;
  anchor_host_time = 0;
  current_frame_count = 0;
  seed = 1;
  loopback_buffer = replicate buffer_size f_zero;
  loopback_write_pos = 2;
  loopback_read_pos = 16382;
  bad_layout_count = 0;
  io_cycle_count = 0;
}

io-IsValid : IsValid io
io-IsValid = record {
  size_kept = length-replicate buffer_size f_zero;
  write_low = omega arith;
  read_low = omega arith;
}

four_wait : available io ≡ 4
unfolding available
four_wait = refl

abbrev frame : List Float32
frame = 8 ∷ 9 ∷ []

write_loopback-append_example :
    let io' = write_loopback io frame 1 in
    (queue_of io' ≡ queue_of io ++ take (1 * 2) frame)
    × (io'.current_frame_count ≡ add64 io.current_frame_count 1)
write_loopback-append_example =
    write_loopback-append io frame 1 io-IsValid (omega arith) (omega (arith, four_wait))

read_loopback-take_example :
    let (io', out) = read_loopback io frame 1 in
    ((1 * 2 ≤ length (queue_of io))
      × (out ≡ take (1 * 2) (queue_of io) ++ drop (1 * 2) frame)
      × (queue_of io' ≡ drop (1 * 2) (queue_of io)))
    ⊎ ((length (queue_of io) < 1 * 2)
        × (out ≡ zero_samples (1 * 2) frame)
        × (queue_of io' ≡ queue_of io))
read_loopback-take_example = read_loopback-take io frame 1 io-IsValid

abbrev second : Float32 → Float32 → Float32
second x y = y

abbrev driver : Driver
driver = record {
  clients = [];
  client_count = 0;
  initialized = false;
  ipc_client = ipc_client_init;
  ipc_initialized = false;
  volume_table = record { count = 0; reserved = 0; entries = [] };
}

abbrev calls : List Call
calls =
    start 3 100
    ∷ operation driver false 0 1 write_mix 1
        (some (record { number_channels = 2; data_byte_size = 8; samples = some frame } ∷ []))
    ∷ operation driver false 0 1 read_input 1 (some [])
    ∷ stop
    ∷ []

abbrev long_block : List Float32
long_block = replicate 16380 f_zero

write_loopback_overrun_example : queue_of (write_loopback io long_block 8190) ≡ []
write_loopback_overrun_example =
    write_loopback_overrun io long_block 8190 io-IsValid
      (omega (arith, length-replicate 16380 f_zero)) (omega (arith, four_wait))
