-- ===== src/Ipc/Server/Reply.antt =====
-- The replies of the IPC server: `send_response` of src/ipc/ipc_server.c, the effects that the
-- server has on its descriptors, and the answers of `malloc`.
use audioctl.Base.{ℕ, Bool, Option, none, some, List, [], ◌∷◌, ◌++◌, take, add32, if◌then◌else◌}
use audioctl.Base.Bytes.{Bytes}
use audioctl.Ipc.Protocol.{ipc_init_header, encode_header, encode_response, response_size}
use audioctl.Ipc.Protocol.Command

-- What the server does to a descriptor. The result of a `send` is not looked at.
pub data Effect : Type 0 where
  send_bytes : ℕ → Bytes → Effect
  close_fd : ℕ → Effect
  kevent_add : ℕ → Effect
  kevent_delete : ℕ → Effect

-- Which of the allocations of one message give memory, and what stands in fresh memory.
pub record Memory : Type 0 where
  pub payload : Bool
  pub entry : Bool
  pub list : Bool
  pub reply_data : Bool
  pub reply : Bool
  pub junk : Bytes

-- The bytes behind the `IPCResponse`: without data they are those of the fresh buffer.
abbrev pub reply_body : Memory → Option Bytes → ℕ → Bytes
reply_body mem none data_len = take data_len mem.junk
reply_body mem (some bytes) data_len = take data_len bytes

-- The whole message. Its length does not wrap while `data_len` is below 2 ^ 32 - 24.
unfoldable pub reply_bytes : Memory → ℕ → ℕ → Option Bytes → ℕ → Bytes
reply_bytes mem request_id status response_data data_len =
    encode_header (ipc_init_header Command.response (add32 response_size data_len) request_id)
    ++ (encode_response status data_len ++ reply_body mem response_data data_len)

unfoldable pub send_response : Memory → ℕ → ℕ → ℕ → Option Bytes → ℕ → List Effect
send_response mem fd request_id status response_data data_len =
    if mem.reply
    then send_bytes fd (reply_bytes mem request_id status response_data data_len) ∷ []
    else []
