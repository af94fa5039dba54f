-- ===== src/Ipc/Examples.antt =====
-- The theorems of the IPC at concrete inputs, and runs of its code.
use audioctl.Base.{
  ℕ, zero, suc, ◌≡◌, refl, ◌⊎◌, true, false, Option, none, some, List, [], ◌∷◌, take, if◌then◌else◌,
  arith,
}
use audioctl.Base.Float.{f_zero, f_one, fle, flt, is_nan}
use audioctl.Base.Bytes.{Bytes, encode_le, decode_le}
use audioctl.Ipc.Protocol.{Header, header_size, encode_header, decode_header, ipc_init_header}
use audioctl.Ipc.Protocol.Command
use audioctl.Ipc.Registry.{
  ServerContext, find_entry, ipc_server_find_client, ipc_server_get_volume, clamp_volume,
  ipc_server_register_client,
}
use audioctl.Ipc.Registry.Invariant.{IsValid}
use audioctl.Ipc.Registry.Volume.{clamp_volume_lem}
use audioctl.Ipc.Registry.Refine.{
  Request, register, unregister, set_volume, set_mute, apply, mixer_of, apply_refines, serve,
  answers, serve_refines,
}
use audioctl.Ipc.Server.{
  Server, Message, Arrival, Event, signal, interrupted, ready, handle_client_message,
  ipc_server_run,
}
use audioctl.Ipc.Server.Reply.{Memory}
use audioctl.Ipc.Server.Dispatch.{handle_get_volume, handle_list_clients}
use audioctl.Ipc.Server.Messages.{
  IsReply, is_well_formed, message_status, handle_client_message_replies,
}
use audioctl.Ipc.Server.Loop.{ipc_server_run-IsValid}
use audioctl.Ipc.Client.{ClientContext, Attempt, Exchange, ipc_client_init}
use audioctl.Ipc.Client.Requests.{ipc_client_get_app_volume}
use audioctl.Ipc.Interop.Reply.{reply_of}
use audioctl.Ipc.Interop.{get_volume_answer_lost}

abbrev memory : Memory
memory = record {
  payload = true;
  entry = true;
  list = true;
  reply_data = true;
  reply = true;
  junk = [];
}

abbrev empty : ServerContext
empty = record {
  listen_fd = some 3;
  epoll_fd = some 4;
  clients = [];
  client_count = 0;
  running = true;
  next_request_id = 1;
}

empty-IsValid : IsValid empty
empty-IsValid = record { distinct = tt; counted = refl }

-- A registry that has taken one registration, of process 7 with a volume of 1 and no name.
abbrev one_client : ServerContext
one_client = (apply 100 (register 7 f_one false []) empty).1

one_client-IsValid : IsValid one_client
one_client-IsValid = (apply_refines 100 (register 7 f_one false []) empty empty-IsValid).2

abbrev server : Server
server = record {
  ctx = one_client;
  connections = record { fd = 9; pid = 0 } ∷ record { fd = 8; pid = 0 } ∷ [];
}

abbrev get_volume_header : Header
get_volume_header = ipc_init_header Command.get_volume 4 1

abbrev get_volume_message : Message
get_volume_message = record {
  header_bytes = some (encode_header get_volume_header);
  payload = some (encode_le 4 7);
}

abbrev idle : ClientContext
idle = ipc_client_init

abbrev attempt : Attempt
attempt = record {
  path_known = true;
  file_exists = true;
  socket = some 5;
  timeout_set = true;
  connecting = true;
  now = 9;
}

abbrev exchange : Option Bytes → Exchange
exchange bytes = record {
  header_sent = true;
  payload_sent = true;
  header_bytes = bytes;
  payload = none;
  sent_at = 0;
  received_at = 0;
}

clamp_volume_lem_example :
    ((is_nan 0x40000000 ≡ true) × (clamp_volume 0x40000000 ≡ 0x40000000))
    ⊎ ((is_nan 0x40000000 ≡ false)
        × (fle f_zero (clamp_volume 0x40000000) ≡ true)
        × (fle (clamp_volume 0x40000000) f_one ≡ true)
        × ((clamp_volume 0x40000000 ≡ 0x40000000)
            ⊎ ((flt 0x40000000 f_zero ≡ true) × (clamp_volume 0x40000000 ≡ f_zero))
            ⊎ ((flt f_one 0x40000000 ≡ true) × (clamp_volume 0x40000000 ≡ f_one))))
clamp_volume_lem_example = clamp_volume_lem 0x40000000 (omega arith)

abbrev requests : List (ℕ × Request × ℕ)
requests = (1, set_volume 7 5, 7) ∷ (2, unregister 7, 7) ∷ (3, set_mute 7 true, 8) ∷ []

serve_refines_example : serve requests one_client ≡ answers requests (mixer_of one_client)
serve_refines_example = serve_refines requests one_client one_client-IsValid

handle_client_message_replies_example :
    IsReply 9
      (if is_well_formed (encode_header get_volume_header)
        then (decode_header (encode_header get_volume_header)).request_id
        else 0)
      (message_status server memory (encode_header get_volume_header) get_volume_message.payload)
      (handle_client_message server memory 5 9 get_volume_message).1
unfolding decode_header encode_header encode_le decode_le
handle_client_message_replies_example =
    handle_client_message_replies server memory 5 9 get_volume_message
      (encode_header get_volume_header) refl refl (omega arith)

abbrev arrival : Arrival
arrival = record { accepted = some 10; nonblocking = true; watched = true; allocated = true }

abbrev events : List Event
events =
    record {
      ident = 9;
      is_read = true;
      arrival = arrival;
      message = get_volume_message;
      mem = memory;
      now = 5;
    }
    ∷ []

ipc_server_run-IsValid_example :
    IsValid (ipc_server_run server (ready events ∷ interrupted ∷ signal ∷ [])).0.ctx
ipc_server_run-IsValid_example =
    ipc_server_run-IsValid server (ready events ∷ interrupted ∷ signal ∷ []) one_client-IsValid

abbrev tired : ClientContext
tired = record idle { reconnect_attempts = 5 }

abbrev tagged : Exchange
tagged = exchange (
    some (
      take header_size (
        reply_of memory 1 (handle_get_volume one_client get_volume_header (some (encode_le 4 7))))))

get_volume_answer_lost_example : (ipc_client_get_app_volume idle 7 tagged).0 ≡ none
unfolding handle_get_volume ipc_init_header encode_le decode_le ipc_server_get_volume find_entry
    ipc_server_find_client ipc_server_register_client
get_volume_answer_lost_example =
    get_volume_answer_lost one_client memory get_volume_header (some (encode_le 4 7)) idle 7 tagged
      (omega arith) refl refl

-- The registry of 15 processes.
abbrev register_up_to : ℕ → ServerContext → ServerContext
register_up_to zero ctx = ctx
register_up_to (suc n) ctx = register_up_to n (apply 1 (register n f_one false []) ctx).1

abbrev crowded : ServerContext
crowded = register_up_to 15 empty

abbrev listed : Exchange
listed = exchange (some (take header_size (reply_of memory 1 (handle_list_clients crowded memory))))
