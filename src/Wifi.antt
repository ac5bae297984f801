-- ===== src/Wifi.antt =====
-- The WiFi crate.
pub mod Pmksa
pub mod Handshake4
