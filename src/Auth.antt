-- ===== src/Auth.antt =====
-- Phone and one-time-password authentication.
pub mod Service
pub mod Wiring
pub mod Tokens
pub mod Attempts
pub mod OneTime
pub mod Requests
pub mod Routes
pub mod Limits
