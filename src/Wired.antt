-- ===== src/Wired.antt =====
-- The wired crate.
pub mod Mka
pub mod Macsec
