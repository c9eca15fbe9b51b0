-- ===== src/Vault.antt =====
-- The vault file (src): the recovery code of its kit.
pub mod RecoveryCode
pub mod Crc
pub mod Symbols
pub mod Base32
pub mod Lengths
pub mod Codes
pub mod Parts
pub mod Accepted
pub mod Examples
