-- ===== src/Pair/Safety.antt =====
-- The protocol leaves the copies paired wherever it ends (replication/fixed-pair/src/lib.rs).
pub mod Calls
pub mod Fresh
pub mod Known
pub mod Commit
pub mod Rows
pub mod Resolve
pub mod Reconcile
pub mod Recover
