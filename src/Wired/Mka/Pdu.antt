-- ===== src/Wired/Mka/Pdu.antt =====
-- MKPDUs, `MkaPdu` of wired/mka.rs.
pub mod Read
pub mod Write
pub mod Frame
pub mod Total
pub mod Segments
pub mod Wire
pub mod ReadBack
pub mod Written
pub mod Loop
pub mod Basic
pub mod RoundTrip
pub mod Authentic
