-- ===== src/Realtime.antt =====
-- The events that a user's browser is sent while they happen.
pub mod Subscriber
pub mod Socket
pub mod Relay
