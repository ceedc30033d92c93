-- ===== src/Tests.antt =====
-- The theorems at concrete inputs, and runs of the models on them.
mod Samples
mod Registry
mod Queue
mod Leases
mod Plans
mod Phases
mod Watchdog
mod Dispatching
mod Contracts
