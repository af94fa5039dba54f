-- ===== src/Cli/BackgroundExamples.antt =====
-- The theorems on the background processes at concrete inputs.
use audioctl.Base.{
  ◌*◌, ◌/◌, ◌^◌, ◌≡◌, refl, ◌≢◌, ◌⊎◌, true, false, none, some, List, [], ◌∷◌, if◌then◌else◌,
}
use audioctl.Base.Float.{Float32}
use audioctl.Base.Status.{no_err}
use audioctl.Router.Context.{AudioBuffer}
use audioctl.Router.Lifecycle.{audio_router_start}
use audioctl.Router.Lifecycle.Resources.{IsIdle, nothing, everything, after_calls}
use audioctl.Router.Samples.{stopped, answers}
use audioctl.Ipc.Server.Reply.{Memory}
use audioctl.Ipc.Server.{Event, Turn, signal, interrupted, ready}
use audioctl.Ipc.Server.Startup.{Startup, ipc_server_init}
use audioctl.Ipc.Server.Descriptors.{left_open}
use audioctl.Cli.Background.{
  IoCall, input, output, internal_route, internal_route_lem, internal_ipc_service,
  internal_ipc_service_lem,
}

abbrev product : Float32 → Float32 → Float32
product a b = a * b / 2 ^ 30

abbrev block : AudioBuffer
block = record { number_channels = 2; data_byte_size = 8; samples = some (11 ∷ 12 ∷ []) }

abbrev seconds : List (List IoCall)
seconds = (input (block ∷ []) ∷ output (block ∷ []) ∷ []) ∷ [] ∷ (output [] ∷ []) ∷ []

internal_route_lem_example :
    let (status, ctx', calls) = audio_router_start answers stopped in
    ((status ≡ no_err)
      × (internal_route product answers stopped seconds ≡ none)
      × (after_calls calls nothing ≡ everything))
    ⊎ ((status ≢ no_err)
        × (internal_route product answers stopped seconds ≡ some (1, ctx', calls))
        × IsIdle ctx'
        × (after_calls calls nothing ≡ nothing))
internal_route_lem_example = internal_route_lem product answers stopped seconds (refl, refl)

abbrev startup : Startup
startup = record {
  path_known = true;
  socket = some 5;
  nonblocking = true;
  bound = true;
  listening = true;
  queue = some 6;
  watched = true;
}

abbrev memory : Memory
memory = record {
  payload = true;
  entry = true;
  list = true;
  reply_data = true;
  reply = true;
  junk = [];
}

-- A client that comes, and one that goes without a message.
abbrev event : Event
event = record {
  ident = 5;
  is_read = true;
  arrival = record { accepted = some 8; nonblocking = true; watched = true; allocated = true };
  message = record { header_bytes = none; payload = none };
  mem = memory;
  now = 1;
}

abbrev turns : List Turn
turns =
    interrupted
    ∷ ready (event ∷ record event { ident = 8 } ∷ [])
    ∷ ready (record event { arrival = record (event.arrival) { accepted = some 9 } } ∷ [])
    ∷ signal
    ∷ ready []
    ∷ []

internal_ipc_service_lem_example :
    let (status, s, effects) = internal_ipc_service startup turns in
    (status ≡ (if (ipc_server_init startup).0 then 0 else 1))
    × (left_open effects 9 false ≡ false)
    × (s.connections ≡ [])
internal_ipc_service_lem_example =
    internal_ipc_service_lem startup turns 9
      (tt, ((refl, (refl, tt)), ((refl, tt), (tt, (tt, tt)))))
