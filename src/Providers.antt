-- ===== src/Providers.antt =====
-- The retailer providers: what they read in a page, and how they get there.
pub mod Browser
pub mod Text
pub mod Pages
pub mod Navigation
pub mod Blinkit
pub mod Zepto
pub mod Instamart
pub mod Bigbasket
pub mod Closing
pub mod Steps
pub mod Methods
pub mod Documents
pub mod Reading
pub mod Retries
pub mod Visits
pub mod Registry
pub mod Wiring
