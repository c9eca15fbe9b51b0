-- ===== src/Pair.antt =====
-- The fixed pair (replication/fixed-pair/src): one primary that writes, one secondary that holds
-- the second copy, and the commit and recovery of operations over both.
pub mod Model
pub mod Tables
pub mod Store
pub mod Checkpoints
pub mod Operations
pub mod Pages
pub mod Run
pub mod Protocol
pub mod Effects
pub mod History
pub mod Outcomes
pub mod Agreement
pub mod Copies
pub mod Tails
pub mod Receipts
pub mod Hoare
pub mod Safety
pub mod Commit
pub mod Comparison
pub mod Coordinator
pub mod Outcome
pub mod Examples
