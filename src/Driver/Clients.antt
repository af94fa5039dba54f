-- ===== src/Driver/Clients.antt =====
-- The driver's table of clients (src/driver/app_volume_driver.c, `g_clients` and its operations).
-- The lock makes each operation one step. What the IPC socket answers is a parameter.
pub mod Slots
pub mod Registered
use audioctl.Base.{
  ℕ, zero, suc, ◌+◌, ◌-◌, ◌%◌, ◌^◌, Bool, true, false, not, ◌&&◌, ◌||◌, Option, none, some, List,
  [], ◌∷◌, replicate, ◌==◌, ltb, leb, add32, sub32, if◌then◌else◌,
}
use audioctl.Base.Float.{Float32, f_zero, f_one}
use audioctl.Base.Bytes.{Bytes}
use audioctl.Base.Status.{OsStatus, no_err, bad_device_error, illegal_operation_error}
use audioctl.Ipc.Protocol.{minus_one}
use audioctl.Ipc.Client.{
  ClientContext, Attempt, Exchange, ipc_client_init, ipc_client_connect, ipc_client_disconnect,
  ipc_client_cleanup, ipc_client_is_connected,
}
use audioctl.Ipc.Client.Requests.{ipc_client_register_app, ipc_client_unregister_app}

-- `ClientEntry` of the driver
pub record Slot : Type 0 where
  pub client_id : ℕ
  pub pid : ℕ
  pub active : Bool

abbrev pub max_clients : ℕ
max_clients = 64

abbrev pub free_slot : Slot
free_slot = record { client_id = 0; pid = 0; active = false }

-- `AppVolumeEntry`
pub record AppVolumeEntry : Type 0 where
  pub pid : ℕ
  pub volume : Float32
  pub is_muted : ℕ
  pub is_active : ℕ
  pub bundle_id : Bytes

-- `AppVolumeTable`
pub record AppVolumeTable : Type 0 where
  pub count : ℕ
  pub reserved : ℕ
  pub entries : List AppVolumeEntry

-- The static variables of the file.
pub record Driver : Type 0 where
  pub clients : List Slot
  pub client_count : ℕ
  pub initialized : Bool
  pub ipc_client : ClientContext
  pub ipc_initialized : Bool
  pub volume_table : AppVolumeTable

abbrev empty_table : AppVolumeTable
empty_table =
    let entry : AppVolumeEntry = record {
      pid = 0;
      volume = f_zero;
      is_muted = 0;
      is_active = 0;
      bundle_id = replicate 128 0;
    } in
    record { count = 0; reserved = 0; entries = replicate 64 entry }

unfoldable pub app_volume_driver_init : Driver → Attempt → Driver
app_volume_driver_init g attempt = if g.initialized then g else record g {
  clients = replicate max_clients free_slot;
  client_count = 0;
  volume_table = empty_table;
  ipc_client =
      if not g.ipc_initialized
      then (ipc_client_connect ipc_client_init attempt).1
      else g.ipc_client;
  ipc_initialized = true;
  initialized = true;
}

unfoldable pub app_volume_driver_cleanup : Driver → Driver
app_volume_driver_cleanup g = if not g.initialized then g else record g {
  clients = replicate max_clients free_slot;
  client_count = 0;
  ipc_client =
      if g.ipc_initialized
      then ipc_client_cleanup (ipc_client_disconnect g.ipc_client)
      else g.ipc_client;
  ipc_initialized = false;
  initialized = false;
}

-- The first loop of `app_volume_driver_add_client`: `none` if the client is not there.
unfoldable pub update_slot : ℕ → ℕ → List Slot → Option (List Slot)
update_slot client_id pid [] = none
update_slot client_id pid (c ∷ cs) =
    let rest = update_slot client_id pid cs in
    if c.active && c.client_id == client_id
    then some (record c { pid = pid } ∷ cs)
    else elim rest [ none ↦ none | some cs' ↦ some (c ∷ cs') ]

-- The second loop: `none` if no slot is free.
unfoldable pub fill_slot : ℕ → ℕ → List Slot → Option (List Slot)
fill_slot client_id pid [] = none
fill_slot client_id pid (c ∷ cs) =
    let rest = fill_slot client_id pid cs in
    if c.active
    then elim rest [ none ↦ none | some cs' ↦ some (c ∷ cs') ]
    else some (record { client_id = client_id; pid = pid; active = true } ∷ cs)

-- "Unknown" and its null.
abbrev unknown : Bytes
unknown = 85 ∷ 110 ∷ 107 ∷ 110 ∷ 111 ∷ 119 ∷ 110 ∷ 0 ∷ []

abbrev name_or_default : Option Bytes → Option Bytes → Bytes
name_or_default bundle_id (some name) = name
name_or_default (some bundle_id) none = bundle_id
name_or_default none none = unknown

-- The flag says whether the request to the server can be allocated.
unfoldable pub app_volume_driver_add_client :
    Driver → ℕ → ℕ → Option Bytes → Option Bytes → Bool → Exchange → OsStatus × Driver
app_volume_driver_add_client g client_id pid bundle_id name allocated x =
    elim (update_slot client_id pid g.clients) [
      | some cs ↦ (no_err, record g { clients = cs })
      | none ↦ elim (fill_slot client_id pid g.clients) [
        | none ↦ (bad_device_error, g)
        | some cs ↦ (
          no_err,
          record g {
            clients = cs;
            client_count = add32 g.client_count 1;
            ipc_client =
                if g.ipc_initialized && ipc_client_is_connected g.ipc_client
                then (ipc_client_register_app g.ipc_client pid (name_or_default bundle_id name)
                    f_one false allocated x).1
                else g.ipc_client;
          },
        )
      ]
    ]

-- The loop of `app_volume_driver_remove_client`, with the process id that it has found.
unfoldable pub clear_slot : ℕ → List Slot → Option (ℕ × List Slot)
clear_slot client_id [] = none
clear_slot client_id (c ∷ cs) =
    let rest = clear_slot client_id cs in
    if c.active && c.client_id == client_id
    then some (c.pid, free_slot ∷ cs)
    else elim rest [ none ↦ none | some (pid, cs') ↦ some (pid, c ∷ cs') ]

-- `pid > 0` for a 32-bit signed number.
abbrev pub is_positive : ℕ → Bool
is_positive pid = ltb 0 pid && ltb pid (2 ^ 31)

unfoldable pub app_volume_driver_remove_client : Driver → ℕ → Exchange → OsStatus × Driver
app_volume_driver_remove_client g client_id x = elim (clear_slot client_id g.clients) [
  | none ↦ (bad_device_error, g)
  | some (pid, cs) ↦ (
    no_err,
    record g {
      clients = cs;
      client_count = sub32 g.client_count 1;
      ipc_client =
          if g.ipc_initialized && (is_positive pid && ipc_client_is_connected g.ipc_client)
          then (ipc_client_unregister_app g.ipc_client pid x).1
          else g.ipc_client;
    },
  )
]

-- The walk of `app_volume_driver_get_pid`.
unfoldable pub find_pid : List Slot → ℕ → Option ℕ
find_pid [] client_id = none
find_pid (c ∷ cs) client_id =
    if c.active && c.client_id == client_id then some c.pid else find_pid cs client_id

-- The flag says whether the lock is free.
unfoldable pub app_volume_driver_get_pid : Driver → Bool → ℕ → ℕ
app_volume_driver_get_pid g locked client_id =
    if locked
    then elim (find_pid g.clients client_id) [ none ↦ minus_one | some pid ↦ pid ]
    else minus_one

unfoldable pub app_volume_driver_set_table : Driver → Option AppVolumeTable → OsStatus × Driver
app_volume_driver_set_table g none = (illegal_operation_error, g)
app_volume_driver_set_table g (some table) = (no_err, record g { volume_table = table })

unfoldable pub app_volume_driver_get_table : Driver → AppVolumeTable
app_volume_driver_get_table g = g.volume_table

-- The loop of `app_volume_driver_get_client_pids`, with `count` ids put out before.
unfoldable pub pids_from : ℕ → ℕ → List Slot → List ℕ
pids_from max_count count [] = []
pids_from max_count count (c ∷ cs) =
    let with_it = pids_from max_count (count + 1) cs in
    let without_it = pids_from max_count count cs in
    if leb max_count count then [] else if c.active then c.pid ∷ with_it else without_it

-- The ids put out; their number is `outActualCount`.
unfoldable pub app_volume_driver_get_client_pids : Driver → ℕ → List ℕ
app_volume_driver_get_client_pids g max_count = pids_from max_count 0 g.clients
