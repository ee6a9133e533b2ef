-- ===== src/Realtime.antt =====
-- app/realtime: from the outbox to the devices
pub mod Relay
pub mod Hub
pub mod Endpoint
pub mod Connection
pub mod Socket
mod Examples
