-- ===== src/Ipc.antt =====
-- The IPC between the driver, the control program and the service: the protocol, the registry of
-- clients, the connections and message handling of the server, and the client.
pub mod Protocol
pub mod Registry
pub mod Connections
pub mod Server
pub mod Client
pub mod Interop
mod Examples
