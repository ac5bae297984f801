-- ===== src/Wired/Mka.antt =====
-- MACsec Key Agreement, wired/mka.rs.
pub mod Types
pub mod Kdf
pub mod Pdu
pub mod Session
