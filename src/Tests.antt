-- ===== src/Tests.antt =====
-- A concrete engine and concrete worlds, and the theorems at work on them.
pub mod Sqlite
pub mod Samples
pub mod Chrome
pub mod Monitoring
pub mod Monitor
pub mod Providers
pub mod Auth
pub mod Notification
pub mod Alerts
pub mod Realtime
pub mod Storage
pub mod Schema
pub mod Analytics
pub mod Api
pub mod App
pub mod Scheduling
