-- ===== src/Ipc/Interop/Reply.antt =====
-- A reply of the server as the bytes that the client reads: its header, and what stands behind it.
use audioctl.Base.{
  ℕ, ◌+◌, ◌^◌, ◌≤◌, ◌<◌, ◌≡◌, refl, sym, ap, ◌∙◌, true, Option, some, [], ◌++◌, take, drop, length,
  add32, take-append, append-nil, arith,
}
use audioctl.Base.Bytes.{Bytes, encode_le}
use audioctl.Ipc.Protocol.{
  Header, header_size, ipc_init_header, encode_header, decode_header, ipc_validate_header,
  is_command, encode_response, response_size,
}
use audioctl.Ipc.Protocol.Command
use audioctl.Ipc.Protocol.Roundtrip.{decode-encode_header, IsWide}
use audioctl.Ipc.Server.Reply.{Memory, reply_bytes, reply_body}
use audioctl.Ipc.Server.Dispatch.{Outcome}
use audioctl.Ipc.Client.{Exchange}
use audioctl.Ipc.Client.Delivery.{Delivers}

-- The header that a reply begins with, as the client reads it: the length of the data and 8 bytes
-- more, and the response command.
pub reply_header : ℕ → ℕ → Header
reply_header id data_len = ipc_init_header Command.response (add32 response_size data_len) id

pub take_reply :
    (mem : Memory) (id status : ℕ) (response_data : Option Bytes) (data_len : ℕ)
    → take header_size (reply_bytes mem id status response_data data_len)
      ≡ encode_header (reply_header id data_len)
unfolding reply_bytes reply_header encode_header encode_le
take_reply mem id status response_data data_len =
    take-append (encode_header (reply_header id data_len))
      (encode_response status data_len ++ reply_body mem response_data data_len)

pub reply_header-IsWide : (id data_len : ℕ) → id < 2 ^ 32 → IsWide (reply_header id data_len)
unfolding reply_header ipc_init_header
reply_header-IsWide id data_len small = record {
  magic = ground arith;
  version = ground arith;
  command = ground arith;
  payload_len = ground arith;
  request_id = ground arith;
}

pub decode_reply :
    (id data_len : ℕ)
    → id < 2 ^ 32
    → decode_header (encode_header (reply_header id data_len)) ≡ reply_header id data_len
decode_reply id data_len small =
    ap decode_header (sym (append-nil (encode_header (reply_header id data_len))))
    ∙ decode-encode_header (reply_header id data_len) [] (reply_header-IsWide id data_len small)

-- The message that the server sends for an outcome of its `switch`.
abbrev pub reply_of : Memory → ℕ → Outcome → Bytes
reply_of mem id o = reply_bytes mem id o.status o.response_data o.response_len

pub reply_len :
    (mem : Memory) (id : ℕ) (o : Outcome)
    → id < 2 ^ 32
    → (decode_header (take header_size (reply_of mem id o))).payload_len
      ≡ add32 response_size o.response_len
unfolding reply_header ipc_init_header
reply_len mem id o small =
    ap (λ b. (decode_header b).payload_len)
      (take_reply mem id o.status o.response_data o.response_len)
    ∙ ap (λ h. h.payload_len) (decode_reply id o.response_len small)

-- What stands behind the header.
pub drop_reply :
    (mem : Memory) (id : ℕ) (o : Outcome)
    → drop header_size (reply_of mem id o)
      ≡ encode_response o.status o.response_len ++ reply_body mem o.response_data o.response_len
unfolding reply_bytes encode_header encode_le
drop_reply mem id o = refl

reply_header_len : (id len : ℕ) → len ≤ 4088 → (reply_header id len).payload_len ≡ 8 + len
unfolding reply_header ipc_init_header
reply_header_len id len few = omega arith

pub reply_header_command : (id len : ℕ) → (reply_header id len).command ≡ Command.response
unfolding reply_header ipc_init_header
reply_header_command id len = refl

reply_header_valid : (id len : ℕ) → len ≤ 4088 → ipc_validate_header (reply_header id len) ≡ true
unfolding reply_header ipc_init_header ipc_validate_header is_command
reply_header_valid id len few = ground arith

reply_size :
    (status len : ℕ) (body : Bytes) → length (encode_response status len ++ body) ≡ 8 + length body
unfolding encode_response encode_le
reply_size status len body = omega arith

-- A reply that comes through whole is delivered, if its data are as long as they say and short
-- enough.
pub reply_of-Delivers :
    (mem : Memory) (id : ℕ) (o : Outcome) (x : Exchange)
    → id < 2 ^ 32
    → o.response_len ≤ 4088
    → length (reply_body mem o.response_data o.response_len) ≡ o.response_len
    → x.header_bytes ≡ some (take header_size (reply_of mem id o))
    → x.payload ≡ some (drop header_size (reply_of mem id o))
    → Delivers x (reply_header id o.response_len) (drop header_size (reply_of mem id o))
      × ((reply_header id o.response_len).payload_len ≡ 8 + o.response_len)
reply_of-Delivers mem id o x small few size came whole = (
  record {
    came = came ∙ ap some (take_reply mem id o.status o.response_data o.response_len);
    read = decode_reply id o.response_len small;
    valid = reply_header_valid id o.response_len few;
    whole = whole;
    some_bytes = omega (arith, reply_header_len id o.response_len few);
    size =
        ap length (drop_reply mem id o)
        ∙ reply_size o.status o.response_len (reply_body mem o.response_data o.response_len)
        ∙ omega (arith, size, reply_header_len id o.response_len few);
  },
  reply_header_len id o.response_len few,
)
