-- ===== src/Ipc/Protocol/Command.antt =====
-- The commands of include/ipc/ipc_protocol.h.
use Prim.Native.Nat.{ℕ}

-- `IPCCommand`
abbrev pub register : ℕ
register = 0x0001

abbrev pub unregister : ℕ
unregister = 0x0002

abbrev pub get_volume : ℕ
get_volume = 0x0100

abbrev pub set_volume : ℕ
set_volume = 0x0101

abbrev pub get_mute : ℕ
get_mute = 0x0102

abbrev pub set_mute : ℕ
set_mute = 0x0103

abbrev pub list_clients : ℕ
list_clients = 0x0200

abbrev pub ping : ℕ
ping = 0x0201

abbrev pub response : ℕ
response = 0x8000

abbrev pub error : ℕ
error = 0x8001
