-- ===== src/Ipc/Protocol/Roundtrip.antt =====
-- Headers on the wire.
use audioctl.Base.{ℕ, ◌^◌, ◌<◌, ◌≡◌, refl, ◌&&◌, ◌++◌, length, leb, arith}
use audioctl.Base.Bytes.{Bytes, encode_le, decode_le}
use audioctl.Ipc.Protocol.{
  Header, header_size, encode_header, decode_header, ipc_init_header, ipc_validate_header,
  is_command, max_payload_size,
}

-- Every field fits its width.
pub record IsWide (h : Header) : Type 0 where
  pub magic : h.magic < 2 ^ 32
  pub version : h.version < 2 ^ 16
  pub command : h.command < 2 ^ 16
  pub payload_len : h.payload_len < 2 ^ 32
  pub request_id : h.request_id < 2 ^ 32

pub length-encode_header : (h : Header) → length (encode_header h) ≡ header_size
unfolding encode_header encode_le
length-encode_header h = refl

-- A header whose fields fit their widths is read back from the bytes that it is written as, whatever
-- follows them.
pub decode-encode_header :
    (h : Header) (rest : Bytes) → IsWide h → decode_header (encode_header h ++ rest) ≡ h
unfolding encode_header decode_header encode_le decode_le
decode-encode_header h rest w = ground arith

-- A header that `ipc_init_header` makes passes `ipc_validate_header` exactly when its command is
-- one of the protocol's and its payload is at most IPC_MAX_PAYLOAD_SIZE.
pub validate-init_header :
    (command payload_len request_id : ℕ)
    → ipc_validate_header (ipc_init_header command payload_len request_id)
      ≡ (is_command command && leb payload_len max_payload_size)
unfolding ipc_validate_header ipc_init_header
validate-init_header command payload_len request_id = ground arith
