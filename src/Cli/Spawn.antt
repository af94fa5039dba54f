-- ===== src/Cli/Spawn.antt =====
-- The start of the two background processes (src/main.c): kill_router, spawn_router,
-- kill_ipc_service and spawn_ipc_service. What `pkill -f` leaves of the processes is a parameter.
use audioctl.Base.{
  ℕ, ◌≡◌, refl, Bool, true, false, Option, none, some, List, [], ◌∷◌, ◌++◌, map, if◌then◌else◌,
}
use audioctl.Base.Bytes.{Bytes, codes}
use audioctl.Manager.{begins_with, contains}
use audioctl.Cli.{same_string}
use audioctl.Cli.Route.{ipc_service, main, router_arguments}

pub record Process : Type 0 where
  pub pid : ℕ
  pub command_line : Bytes

-- What happens to the descriptor of /dev/null, here and, for the first two, in the new process.
pub data NullCall : Type 0 where
  duplicate : ℕ → ℕ → NullCall
  close_in_child close : ℕ → NullCall

-- The result of a start: the id, `none` for -1, the processes, and the calls on the descriptor.
pub record Spawned : Type 0 where
  pub pid : Option ℕ
  pub processes : List Process
  pub null_calls : List NullCall

abbrev pub router_pattern : Bytes
router_pattern = codes "audioctl internal-route"

abbrev pub service_pattern : Bytes
service_pattern = codes "audioctl internal-ipc-service"

abbrev pub service_arguments : List Bytes
service_arguments = codes "internal-ipc-service" ∷ []

-- The arguments behind `argv[0]`, each after a space.
unfoldable pub spaced : List Bytes → Bytes
spaced [] = []
spaced (arg ∷ args) = 32 ∷ (arg ++ spaced args)

unfoldable pub command_line : List Bytes → Bytes
command_line args = codes "audioctl" ++ spaced args

-- The descriptor that `open` gives for /dev/null is put in the place of the given ones.
unfoldable pub redirect : Option ℕ → List ℕ → List NullCall
redirect none targets = []
redirect (some null) targets =
    map (λ target. duplicate null target) targets ++ (close_in_child null ∷ close null ∷ [])

-- `posix_spawn`, with the id of the new process if there is one.
unfoldable pub spawned : Option ℕ → List Bytes → List Process → List Process
spawned none args ps = ps
spawned (some pid) args ps = record { pid = pid; command_line = command_line args } ∷ ps

-- The processes whose command line has the pattern in it.
unfoldable pub matching : Bytes → List Process → List Process
matching pattern [] = []
matching pattern (p ∷ ps) =
    let rest = matching pattern ps in if contains pattern p.command_line then p ∷ rest else rest

module _ (pkill : Bytes → List Process → List Process) where
  unfoldable pub kill_router : List Process → List Process
  kill_router ps = pkill router_pattern ps

  unfoldable pub spawn_router : Option ℕ → Option ℕ → Bytes → List Process → Spawned
  spawn_router null new physical_uid ps = record {
    pid = new;
    processes = spawned new (router_arguments physical_uid) (kill_router ps);
    null_calls = redirect null (1 ∷ 2 ∷ []);
  }

  -- The flags say whether the path of the socket is known and whether its file is there.
  unfoldable pub kill_ipc_service : Bool → List Process × Bool → List Process × Bool
  kill_ipc_service path_known (ps, socket) =
      (pkill service_pattern ps, if path_known then false else socket)

  -- The standard error of the service stays.
  unfoldable pub spawn_ipc_service :
      Option ℕ → Option ℕ → Bool → List Process × Bool → Spawned × Bool
  spawn_ipc_service null new path_known world =
      let (ps, socket) = kill_ipc_service path_known world in
      (
        record {
          pid = new;
          processes = spawned new service_arguments ps;
          null_calls = redirect null (1 ∷ []);
        },
        socket,
      )

  -- The new process alone.
  abbrev pub only : Option ℕ → List Bytes → List Process
  only new args = spawned new args []

  router_found :
      (uid : Bytes) → contains router_pattern (command_line (router_arguments uid)) ≡ true
  unfolding contains begins_with command_line spaced router_arguments
  router_found uid = refl

  service_found : contains service_pattern (command_line service_arguments) ≡ true
  unfolding contains begins_with command_line spaced
  service_found = refl

  alone :
      (pattern : Bytes) (new : Option ℕ) (args : List Bytes) (ps : List Process)
      → contains pattern (command_line args) ≡ true
      → matching pattern ps ≡ []
      → matching pattern (spawned new args ps) ≡ only new args
  unfolding matching spawned
  alone pattern none args ps found cleared = cleared
  alone pattern (some pid) args ps found cleared = rw (found, cleared) refl

  -- If pkill leaves no process with the pattern, the start of a router leaves one router, the new
  -- one, or none if it cannot be started, whatever ran before, so that two starts in a row never
  -- leave two; the same holds of the service, and the process started for it is the service.
  pub spawn_alone :
      ((pattern : Bytes) (ps : List Process) → matching pattern (pkill pattern ps) ≡ [])
      → (null new : Option ℕ) (uid : Bytes) (ps : List Process) (known socket : Bool)
      → (matching router_pattern (spawn_router null new uid ps).processes
          ≡ only new (router_arguments uid))
        × (matching service_pattern (spawn_ipc_service null new known (ps, socket)).0.processes
            ≡ only new service_arguments)
        × (main service_arguments ≡ ipc_service)
  unfolding spawn_router spawn_ipc_service kill_router kill_ipc_service main same_string begins_with
  spawn_alone kills null new uid ps known socket = (
    alone router_pattern new (router_arguments uid) _ (router_found uid) (kills router_pattern ps),
    alone service_pattern new service_arguments _ service_found (kills service_pattern ps),
    refl,
  )
