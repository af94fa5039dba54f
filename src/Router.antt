-- ===== src/Router.antt =====
-- The audio router (src/audio_router.c): the ring buffer between the two devices, the two IO
-- callbacks that fill and drain it, and the start and stop of the route.
pub mod Ring
pub mod Context
pub mod Callbacks
pub mod Lifecycle
pub mod Monitor
pub mod Samples
mod Examples
