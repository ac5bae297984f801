-- ===== src/Ike.antt =====
-- The IPsec crate's IKEv2 codec, proposal selection and encrypted payload (ipsec/ikev2, and the
-- algorithms of ipsec/config.rs).
pub mod Types
pub mod Header
pub mod Sa
pub mod Selector
pub mod Payload
pub mod Chain
pub mod Algorithm
pub mod Proposal
pub mod Crypto
pub mod Seal
pub mod Keys
pub mod Message
