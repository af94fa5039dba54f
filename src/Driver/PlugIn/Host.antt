-- ===== src/Driver/PlugIn/Host.antt =====
-- Any sequence of calls that the host makes of the plug-in, from the time it is loaded.
use audioctl.Base.{
  ℕ, ◌+◌, ◌*◌, ◌^◌, ◌<◌, ◌≡◌, sym, Bool, false, Option, none, some, List, [], ◌∷◌, replicate,
  length-replicate, arith,
}
use audioctl.Base.Float.{Float32, f_zero}
use audioctl.Ipc.Client.{Attempt, Exchange, ClientContext}
use audioctl.Driver.Clients.{Driver, AppVolumeTable, app_volume_driver_init, free_slot, max_clients}
use audioctl.Driver.Clients.Slots.{free_slots, active_pids}
use audioctl.Driver.Clients.Registered
use audioctl.Driver.Clients.Registered.{Change, add, remove, change_refines, init_cleanup-IsValid}
use audioctl.Driver.Loopback.{buffer_size, Operation, MainBuffer, device_object_id}
use audioctl.Driver.Loopback.Queue
use audioctl.Driver.Loopback.Calls.{Call, start, stop, operation, calls_all, calls_all-IsValid}
use audioctl.Driver.Properties.{
  Scope, app_client_list, process_ids, get_property_data, get_property_data_size,
}
use audioctl.Driver.Properties.Sizes.{get_property_data-active_pids}
use audioctl.Driver.PlugIn.{
  PlugIn, query_interface, add_ref, release, initialize, create_device, destroy_device,
  add_device_client, remove_device_client, perform_device_configuration_change,
  abort_device_configuration_change, begin_io_operation, end_io_operation,
}

pub record IsValid (p : PlugIn) : Type 0 where
  pub counted : p.ref_count < 2 ^ 32
  pub loopback : Queue.IsValid p.io
  pub table : Registered.IsValid p.clients

-- A call of the host, with its arguments and what the system answers to it.
pub data HostCall : Type 0 where
  query : Bool → Bool → Bool → HostCall
  retain let_go create destroy perform abort begin_io end_io : HostCall
  initialise : ℕ → ℕ → Attempt → HostCall
  add_client : Option (ℕ × ℕ) → Bool → Exchange → HostCall
  remove_client : Option (ℕ × ℕ) → Exchange → HostCall
  start_io_at : ℕ → ℕ → HostCall
  stop_one : HostCall
  do_io : Bool → ℕ → ℕ → Operation → ℕ → Option (List MainBuffer) → HostCall

module _ (fmul : Float32 → Float32 → Float32) (driver_ref : ℕ) where
  abbrev pub host_call : HostCall → PlugIn → PlugIn
  host_call (query own address known) p = (query_interface driver_ref p own address known).1
  host_call retain p = (add_ref p).1
  host_call let_go p = (release p).1
  host_call create p = (create_device p).1
  host_call destroy p = (destroy_device p).1
  host_call perform p = (perform_device_configuration_change p).1
  host_call abort p = (abort_device_configuration_change p).1
  host_call begin_io p = (begin_io_operation p).1
  host_call end_io p = (end_io_operation p).1
  host_call (initialise host ticks attempt) p = (initialize p host ticks attempt).1
  host_call (add_client info allocated x) p = (add_device_client p info allocated x).1
  host_call (remove_client info x) p = (remove_device_client p info x).1
  host_call (start_io_at object now) p = record p {
    io = calls_all fmul (start object now ∷ []) p.io;
  }
  host_call stop_one p = record p { io = calls_all fmul (stop ∷ []) p.io }
  host_call (do_io locked now client_id op frame_size buffers) p = record p {
    io = calls_all fmul (operation p.clients locked now client_id op frame_size buffers ∷ []) p.io;
  }

  pub host_calls : List HostCall → PlugIn → PlugIn
  host_calls [] p = p
  host_calls (c ∷ cs) p = host_calls cs (host_call c p)

  with_io :
      (cs : List Call) (p : PlugIn) → IsValid p → IsValid (record p { io = calls_all fmul cs p.io })
  with_io cs p v = record {
    counted = v.counted;
    loopback = calls_all-IsValid fmul cs p.io v.loopback;
    table = v.table;
  }

  with_clients :
      (g : Driver) (p : PlugIn)
      → IsValid p
      → Registered.IsValid g
      → IsValid (record p { clients = g })
  with_clients g p v h = record { counted = v.counted; loopback = v.loopback; table = h }

  init-IsValid :
      (g : Driver) (attempt : Attempt)
      → Registered.IsValid g
      → Registered.IsValid (app_volume_driver_init g attempt)
  unfolding app_volume_driver_init
  init-IsValid g attempt v =
      ground (arith, free_slots max_clients 0, length-replicate max_clients free_slot)

  host_call-IsValid : (c : HostCall) (p : PlugIn) → IsValid p → IsValid (host_call c p)
  unfolding query_interface add_ref release initialize create_device destroy_device
      add_device_client remove_device_client perform_device_configuration_change
      abort_device_configuration_change begin_io_operation end_io_operation
  host_call-IsValid (query own address known) p v = ground (arith, v.counted, v.loopback, v.table)
  host_call-IsValid retain p v = record {
    counted = omega arith;
    loopback = v.loopback;
    table = v.table;
  }
  host_call-IsValid let_go p v = ground (arith, v.counted, v.loopback, v.table)
  host_call-IsValid create p v = v
  host_call-IsValid destroy p v = v
  host_call-IsValid perform p v = v
  host_call-IsValid abort p v = v
  host_call-IsValid begin_io p v = v
  host_call-IsValid end_io p v = v
  host_call-IsValid (initialise host ticks attempt) p v = record {
    counted = v.counted;
    loopback = v.loopback;
    table = init-IsValid p.clients attempt v.table;
  }
  host_call-IsValid (add_client none allocated x) p v = v
  host_call-IsValid (add_client (some (id, pid)) allocated x) p v =
      with_clients _ p v (change_refines (add id pid none none allocated x) p.clients 0 v.table).3
  host_call-IsValid (remove_client none x) p v = v
  host_call-IsValid (remove_client (some (id, pid)) x) p v =
      with_clients _ p v (change_refines (remove id x) p.clients 0 v.table).3
  host_call-IsValid (start_io_at object now) p v = with_io (start object now ∷ []) p v
  host_call-IsValid stop_one p v = with_io (stop ∷ []) p v
  host_call-IsValid (do_io locked now client_id op frame_size buffers) p v =
      with_io (operation p.clients locked now client_id op frame_size buffers ∷ []) p v

  pub host_calls-IsValid : (cs : List HostCall) (p : PlugIn) → IsValid p → IsValid (host_calls cs p)
  unfolding host_calls
  host_calls-IsValid [] p v = v
  host_calls-IsValid (c ∷ cs) p v = host_calls-IsValid cs (host_call c p) (host_call-IsValid c p v)

-- The static variables when the plug-in is loaded, with what the IPC client holds then.
abbrev pub loaded : ClientContext → AppVolumeTable → PlugIn
loaded ctx table = record {
  ref_count = 0;
  host = none;
  host_ticks_per_frame = 0;
  io = record {
    io_is_running = 0;
    number_time_stamps = 0;
    anchor_host_time = 0;
    current_frame_count = 0;
    seed = 1;
    loopback_buffer = replicate buffer_size f_zero;
    loopback_write_pos = 0;
    loopback_read_pos = 0;
    bad_layout_count = 0;
    io_cycle_count = 0;
  };
  clients = record {
    clients = replicate max_clients free_slot;
    client_count = 0;
    initialized = false;
    ipc_client = ctx;
    ipc_initialized = false;
    volume_table = table;
  };
}

pub loaded-IsValid : (ctx : ClientContext) (table : AppVolumeTable) → IsValid (loaded ctx table)
loaded-IsValid ctx table = record {
  counted = omega arith;
  loopback = record {
    size_kept = length-replicate buffer_size f_zero;
    write_low = omega arith;
    read_low = omega arith;
  };
  table = record {
    slots = length-replicate max_clients free_slot;
    distinct = (free_slots max_clients 0).2;
    counted = sym (free_slots max_clients 0).1;
  };
}

-- Whatever the host calls after it has loaded the plug-in, with whatever arguments and answers of
-- the system: the positions stay inside the loopback buffer, the clients in the 64 slots have
-- different ids and are counted, the reference count is a 32-bit number, and GetPropertyData gives
-- in memory of the announced size the process ids of exactly the clients that are registered.
pub host_calls_from_loaded :
    (fmul : Float32 → Float32 → Float32) (driver_ref : ℕ) (ctx : ClientContext)
    (table : AppVolumeTable) (cs : List HostCall) (scope : Scope)
    → let p = host_calls fmul driver_ref cs (loaded ctx table) in
      IsValid p
      × (get_property_data p.clients p.io device_object_id app_client_list scope
            (get_property_data_size device_object_id app_client_list scope)
          ≡ (some (process_ids (active_pids p.clients.clients)), 4 + p.clients.client_count * 4))
host_calls_from_loaded fmul driver_ref ctx table cs scope =
    let p = host_calls fmul driver_ref cs (loaded ctx table) in
    let v : IsValid p =
      host_calls-IsValid fmul driver_ref cs (loaded ctx table) (loaded-IsValid ctx table) in
    (v, (get_property_data-active_pids p.clients p.io scope 4 v.table (omega arith)).2)
