-- ===== src/Ipc/Interop/Listing.antt =====
-- What the client makes of a listing that is short enough to be received.
use audioctl.Base.{
  ℕ, zero, suc, ◌+◌, ◌*◌, ◌/◌, ◌^◌, ◌≤◌, ◌<◌, ◌≡◌, refl, ap, ◌∙◌, inl, true, none, some, List, [],
  ◌∷◌, ◌++◌, length, take, drop, length-append, take_all, length-take, arith,
}
use audioctl.Base.Bytes.{Bytes, encode_le, decode_le}
use audioctl.Ipc.Protocol.{Header, header_size, ipc_init_header, encode_response, max_payload_size}
use audioctl.Ipc.Protocol.Command
use audioctl.Ipc.Protocol.IpcStatus
use audioctl.Ipc.Registry.{ClientEntry, ServerContext, ipc_server_list_clients}
use audioctl.Ipc.Registry.Invariant.{IsValid, IsDistinct}
use audioctl.Ipc.Server.Reply.{Memory, reply_body}
use audioctl.Ipc.Server.Dispatch.{Outcome, encode_client, encode_clients, handle_list_clients}
use audioctl.Ipc.Client.{ClientContext, Exchange, ipc_client_is_connected}
use audioctl.Ipc.Client.Requests.{AppInfo, decode_app, parse_apps, ipc_client_list_apps}
use audioctl.Ipc.Interop.Reply.{
  reply_of, reply_header, reply_of-Delivers, drop_reply, reply_header_command,
}
use audioctl.Ipc.Client.Delivery.{Delivers, exchanged}

length-encode_client : (c : ClientEntry) → length c.app_name ≡ 256 → length (encode_client c) ≡ 273
unfolding encode_client encode_le
length-encode_client c h = omega (arith, h)

length-encode_clients :
    (cs : List ClientEntry) → IsDistinct cs → length (encode_clients cs) ≡ 273 * length cs
unfolding encode_clients
length-encode_clients [] d = refl
length-encode_clients (c ∷ cs) d =
    length-append {0} (encode_client c) (encode_clients cs)
    ∙ omega (arith, length-encode_client c d.1, length-encode_clients cs d.2)

-- A connected client that receives a whole listing reads its entries from the first byte on.
accepted :
    (ctx : ClientContext) (x : Exchange) (h : Header) (payload : Bytes)
    → ipc_client_is_connected ctx ≡ true
    → x.header_sent ≡ true
    → Delivers x h payload
    → h.command ≡ Command.response
    → 273 ≤ h.payload_len
    → h.payload_len ≤ max_payload_size
    → (ipc_client_list_apps ctx true true x).0 ≡ some (parse_apps (h.payload_len / 273) payload)
unfolding ipc_client_list_apps
accepted ctx x h payload on sent d response many few =
    rw
      (
        on,
        exchanged ctx (ipc_init_header Command.list_clients 0 1) none max_payload_size x h payload
            on sent (inl refl) d few,
      )
      (ground arith)

-- The server's outcome for a valid registry.
listing :
    (sctx : ServerContext) (mem : Memory)
    → IsValid sctx
    → 1 ≤ length sctx.clients
    → length sctx.clients ≤ 14
    → mem.list ≡ true
    → mem.reply_data ≡ true
    → handle_list_clients sctx mem ≡ record {
      ctx = sctx;
      status = IpcStatus.ok;
      response_data = some (encode_clients sctx.clients);
      response_len = 273 * length sctx.clients;
    }
unfolding handle_list_clients ipc_server_list_clients
listing sctx mem v many few list_memory data_memory =
    ground (arith, v.counted, take_all sctx.client_count sctx.clients)

body_size :
    (mem : Memory) (cs : List ClientEntry)
    → IsDistinct cs
    → length (reply_body mem (some (encode_clients cs)) (273 * length cs)) ≡ 273 * length cs
body_size mem cs d =
    omega (arith, length-take (273 * length cs) (encode_clients cs), length-encode_clients cs d)

first_pid :
    (status len : ℕ) (body : Bytes)
    → status < 2 ^ 32
    → (decode_app (encode_response status len ++ body)).pid ≡ status
unfolding decode_app encode_response encode_le decode_le
first_pid status len body small = omega arith

length-parse_apps : (n : ℕ) (bytes : Bytes) → length (parse_apps n bytes) ≡ n
unfolding parse_apps
length-parse_apps zero bytes = refl
length-parse_apps (suc n) bytes = ap suc (length-parse_apps n (drop 273 bytes))

parsed :
    (n : ℕ) (bytes : Bytes)
    → 1 ≤ n
    → (rest : List AppInfo) × (parse_apps n bytes ≡ decode_app bytes ∷ rest) × (length rest + 1 ≡ n)
unfolding parse_apps
parsed zero bytes h = absurd (omega arith)
parsed (suc n) bytes h =
    (parse_apps n (drop 273 bytes), refl, omega (arith, length-parse_apps n (drop 273 bytes)))

-- From a listing of 1 to 14 clients a connected client gets a list of the right length whose first
-- process id is the status of the reply, 0, and not that of a process: it reads the entries from
-- the first byte of the payload, where the `IPCResponse` stands. The registry is valid, the
-- allocations of the server and of the client succeed, the identifier of the request is a
-- `uint32_t`, and the request and the reply come through whole.
pub list_clients_misread :
    (sctx : ServerContext) (mem : Memory) (id : ℕ) (ctx : ClientContext) (x : Exchange)
    → IsValid sctx
    → 1 ≤ length sctx.clients
    → length sctx.clients ≤ 14
    → mem.list ≡ true
    → mem.reply_data ≡ true
    → id < 2 ^ 32
    → ipc_client_is_connected ctx ≡ true
    → x.header_sent ≡ true
    → x.header_bytes ≡ some (take header_size (reply_of mem id (handle_list_clients sctx mem)))
    → x.payload ≡ some (drop header_size (reply_of mem id (handle_list_clients sctx mem)))
    → (first : AppInfo) × (rest : List AppInfo) × ((ipc_client_list_apps ctx true true x).0
        ≡ some (first ∷ rest))
      × (length rest + 1 ≡ length sctx.clients)
      × (first.pid ≡ IpcStatus.ok)
list_clients_misread sctx mem id ctx x v many few list_memory data_memory small on sent came whole =
    let (rest, split, count) = parsed (length sctx.clients) payload many in
    (
      decode_app payload,
      rest,
      listed ∙ ap (λ n. some (parse_apps n payload)) (omega (arith, delivered.1)) ∙ ap some split,
      count,
      ap (λ b. (decode_app b).pid) (drop_reply mem id o)
          ∙ first_pid IpcStatus.ok o.response_len (reply_body mem o.response_data o.response_len)
              (omega arith),
    )
  where
    o : Outcome
    o = record {
      ctx = sctx;
      status = IpcStatus.ok;
      response_data = some (encode_clients sctx.clients);
      response_len = 273 * length sctx.clients;
    }

    same : handle_list_clients sctx mem ≡ o
    same = listing sctx mem v many few list_memory data_memory

    payload : Bytes
    payload = drop header_size (reply_of mem id o)

    delivered :
        Delivers x (reply_header id o.response_len) payload
        × ((reply_header id o.response_len).payload_len ≡ 8 + o.response_len)
    delivered =
        reply_of-Delivers mem id o x small (omega arith) (body_size mem sctx.clients v.distinct)
          (came ∙ ap (λ o. some (take header_size (reply_of mem id o))) same)
          (whole ∙ ap (λ o. some (drop header_size (reply_of mem id o))) same)

    listed :
        (ipc_client_list_apps ctx true true x).0
        ≡ some (parse_apps ((reply_header id o.response_len).payload_len / 273) payload)
    listed =
        accepted ctx x (reply_header id o.response_len) payload on sent delivered.0
          (reply_header_command id o.response_len) (omega (arith, delivered.1))
          (omega (arith, delivered.1))
