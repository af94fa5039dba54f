-- ===== src/Driver.antt =====
-- The driver's device and its table of clients (src/driver).
pub mod Device
pub mod Clients
pub mod Volume
pub mod Loopback
pub mod Properties
pub mod PlugIn
mod Examples
