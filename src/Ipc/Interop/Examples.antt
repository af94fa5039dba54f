-- ===== src/Ipc/Interop/Examples.antt =====
-- A listing of one client, read by the client of the IPC.
use audioctl.Base.{
  ◌∙◌, ap, ◌==◌, ◌+◌, ◌≡◌, refl, true, false, some, List, [], ◌∷◌, length, take, drop, replicate,
  length-replicate, arith,
}
use audioctl.Base.Float.{f_zero, f_one}
use audioctl.Ipc.Protocol.{header_size}
use audioctl.Ipc.Protocol.IpcStatus
use audioctl.Ipc.Registry.{ClientEntry, ServerContext, find_entry}
use audioctl.Ipc.Registry.Invariant.{IsValid}
use audioctl.Ipc.Server.Reply.{Memory, Effect}
use audioctl.Ipc.Server.Dispatch.{handle_list_clients}
use audioctl.Ipc.Client.{ClientContext, Exchange, ipc_client_init, ipc_client_is_connected}
use audioctl.Ipc.Client.Requests.{AppInfo, ipc_client_list_apps}
use audioctl.Ipc.Interop.Reply.{reply_of}
use audioctl.Base.Bytes.{Bytes}
use audioctl.Ipc.Registry.Refine.{Request, set_volume, mixer_of, after, answer}
use audioctl.Ipc.Server.{Server, handle_client_message}
use audioctl.Ipc.Interop.EndToEnd.{issue, request_end_to_end, issued, issued_message}
use audioctl.Ipc.Interop.Carried.{IsSendable, outcome_of, request_carried_out}
use audioctl.Ipc.Interop.Listing.{list_clients_misread}

abbrev player : ClientEntry
player = record {
  pid = 77;
  volume = f_one;
  muted = false;
  connected_at = 5;
  app_name = replicate 256 0;
}

abbrev registry : ServerContext
registry = record {
  listen_fd = some 3;
  epoll_fd = some 4;
  clients = player ∷ [];
  client_count = 1;
  running = true;
  next_request_id = 1;
}

registry-IsValid : IsValid registry
unfolding find_entry
registry-IsValid = record { distinct = (refl, length-replicate 256 0, tt); counted = refl }

abbrev memory : Memory
memory = record {
  payload = true;
  entry = true;
  list = true;
  reply_data = true;
  reply = true;
  junk = [];
}

abbrev connected : ClientContext
connected = record ipc_client_init { fd = some 9; connected = true }

abbrev exchange : Exchange
exchange = record {
  header_sent = true;
  payload_sent = true;
  header_bytes = some (take header_size (reply_of memory 1 (handle_list_clients registry memory)));
  payload = some (drop header_size (reply_of memory 1 (handle_list_clients registry memory)));
  sent_at = 0;
  received_at = 0;
}

-- The client is told of process 0, and not of process 77.
list_clients_misread_example :
    (first : AppInfo) × (rest : List AppInfo) × ((ipc_client_list_apps connected true true
        exchange).0
      ≡ some (first ∷ rest))
    × (length rest + 1 ≡ length registry.clients)
    × (first.pid ≡ IpcStatus.ok)
unfolding ipc_client_is_connected
list_clients_misread_example =
    list_clients_misread registry memory 1 connected exchange registry-IsValid (omega arith)
      (omega arith) refl refl (omega arith) refl refl refl refl

-- The volume of process 77 is set from the client.
abbrev quieter : Request
quieter = set_volume 77 f_zero

quieter-IsSendable : IsSendable quieter
unfolding IsSendable
quieter-IsSendable = (omega arith, omega arith)

abbrev server : Server
server = record { ctx = registry; connections = [] }

abbrev reply : Bytes
reply = reply_of memory 1 (outcome_of 0 quieter registry)

abbrev told : Exchange
told = record {
  header_sent = true;
  payload_sent = true;
  header_bytes = some (take header_size reply);
  payload = some (drop header_size reply);
  sent_at = 0;
  received_at = 0;
}

request_end_to_end_example :
    let s' = (handle_client_message server memory 0 9 (issued quieter connected told)).0 in
    (mixer_of s'.ctx ≡ after quieter (mixer_of registry))
    × IsValid s'.ctx
    × ((issue quieter connected told).0 ≡ (answer quieter (mixer_of registry) == 0))
unfolding ipc_client_is_connected
request_end_to_end_example =
    request_end_to_end quieter server memory 0 9 reply connected told quieter-IsSendable
      registry-IsValid refl refl refl refl refl refl
      (ap (λ m. (handle_client_message server memory 0 9 m).1)
          (issued_message quieter connected told quieter-IsSendable refl refl refl)
        ∙ ap (λ (out : Server × List Effect). out.1)
            (request_carried_out quieter server memory 0 9 quieter-IsSendable refl refl refl))
      refl refl
