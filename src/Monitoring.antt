-- ===== src/Monitoring.antt =====
-- Change detection: the comparison of two observations and the service that records the changes.
pub mod Diffing
pub mod Service
pub mod Wiring
pub mod Recording
pub mod Check
