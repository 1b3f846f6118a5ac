-- ===== src/Domain.antt =====
-- The domain layer: enums, entities, errors and the ports that the services call.
pub mod Enums
pub mod Entities
pub mod Errors
pub mod Action
pub mod Keeps
pub mod Ports
