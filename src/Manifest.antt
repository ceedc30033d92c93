-- ===== src/Manifest.antt =====
-- coding/manifest/schema.go and coding/manifest/scheduler.go: the plans of a run, the checks on
-- their graph, and the choice of those that may start.
pub mod Integers
pub mod Schema
pub mod Validate
pub mod Scheduler
pub mod Ready
pub mod Progress
