-- ===== src/Wifi/Handshake4.antt =====
-- The supplicant of the 4-way handshake, wifi/crypto/handshake4.rs.
pub mod Crypto
pub mod State
pub mod Messages
pub mod Meet
pub mod Kept
pub mod Once
pub mod Again
