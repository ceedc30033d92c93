-- ===== src/Store.antt =====
-- The package store.
pub mod Schema
pub mod Rows
pub mod Events
pub mod Dispatches
pub mod Leases
pub mod Workers
pub mod Replay
pub mod Roll
pub mod Runs
pub mod Jobs
pub mod Findings
pub mod Attention
pub mod History
