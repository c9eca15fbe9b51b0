-- ===== src/Transport/Examples.antt =====
-- Witnesses for the transport service, at concrete inputs.
pub mod Ids
mod Leases
