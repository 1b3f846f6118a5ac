-- ===== src/Api/Ownership.antt =====
-- Whose rows a request may change: nobody's but the user's who sends it.
pub mod Watches
pub mod Channels
pub mod Products
pub mod Sharing
