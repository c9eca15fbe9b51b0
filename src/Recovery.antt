-- ===== src/Recovery.antt =====
-- The crate replication/recovery: the plan model, grants, the decision journal and the
-- transition journal.
pub mod Model
pub mod Jws
pub mod Grant
pub mod Decision
pub mod Transition
pub mod Examples
