-- ===== src/Storage.antt =====
-- The database adapters: rows, the session, and the repositories over them.
pub mod Rows
pub mod World
pub mod Session
pub mod Engine
pub mod Users
pub mod OtpChallenges
pub mod Retailers
pub mod Products
pub mod WatchTargets
pub mod Snapshots
pub mod DetectionEvents
pub mod Watches
pub mod Channels
pub mod NotificationLogs
pub mod UserSettings
pub mod Private
pub mod Schema
pub mod SystemLogs
