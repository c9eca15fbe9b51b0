-- ===== src/Transport.antt =====
-- The transport service (services/vesta-transport).
pub mod Lease
pub mod Examples
