-- ===== src/Api.antt =====
-- The routes of the HTTP interface that work on a user's own rows.
pub mod Schemas
pub mod Failing
pub mod Products
pub mod Watches
pub mod Channels
pub mod History
pub mod Settings
pub mod Ownership
pub mod Deps
pub mod Main
pub mod Reference
pub mod Availability
pub mod Routers
pub mod Lifespan
pub mod App
pub mod Isolation
