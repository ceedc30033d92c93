-- ===== src/Queue.antt =====
-- What the callers of the dispatch queue of store/dispatch_store.go rely on.
pub mod Claim
pub mod Complete
pub mod Requeue
pub mod Leases
