-- ===== src/Api/Isolation.antt =====
-- What a request leaves alone: the rows of the users that it is not for.
pub mod Reads
pub mod Creates
pub mod Owned
pub mod Settings
pub mod Lookup
pub mod SignIn
pub mod Routes
pub mod Callers
pub mod Requests
pub mod Startup
pub mod Readable
