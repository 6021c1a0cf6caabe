-- ===== src/Realtime.antt =====
-- realtime/: the live connections of a process.
pub mod Protocol
pub mod Hub
pub mod Session
pub mod Lifecycle
pub mod Stream
pub mod Delivery
pub mod Tests
