-- ===== src/Ipc/Protocol/IpcStatus.antt =====
-- The status codes of include/ipc/ipc_protocol.h, as 32-bit patterns.
use Prim.Native.Nat.{ℕ}

-- `IPCStatus`: -1 is 2 ^ 32 - 1, and so on.
abbrev pub ok : ℕ
ok = 0

abbrev pub invalid_header : ℕ
invalid_header = 0xffff_ffff

abbrev pub unknown_command : ℕ
unknown_command = 0xffff_fffe

abbrev pub payload_too_large : ℕ
payload_too_large = 0xffff_fffd

abbrev pub client_not_found : ℕ
client_not_found = 0xffff_fffc

abbrev pub invalid_volume : ℕ
invalid_volume = 0xffff_fffb

abbrev pub service_unavailable : ℕ
service_unavailable = 0xffff_fffa

abbrev pub internal_error : ℕ
internal_error = 0xffff_fff9
