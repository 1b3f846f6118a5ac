-- ===== src/Notification.antt =====
-- The notifications that a stock event sends to the users who watch the product.
pub mod Service
pub mod Wiring
pub mod Delivery
pub mod Cooldown
pub mod Watchers
pub mod Senders
pub mod Failures
pub mod Keys
pub mod Everyone
pub mod Tasks
