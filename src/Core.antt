-- ===== src/Core.antt =====
-- The core crate: the framing and the peer state machine of EAP, which WiFi and wired 802.1X share.
pub mod Types
pub mod Eapol
pub mod Eap
pub mod EapTls
