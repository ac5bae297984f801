-- ===== src/Wired/Mka/Session.antt =====
-- `MkaSession` of wired/mka.rs, one participant of a port.
pub mod State
pub mod Peers
pub mod Election
pub mod Sak
pub mod Receive
pub mod Handle
pub mod Run
pub mod Elected
pub mod Agreement
pub mod Invariant
pub mod Updates
pub mod Steps
pub mod Reachable
pub mod Received
pub mod Silence
pub mod AloneSteps
pub mod Alone
pub mod Numbers
pub mod Remembered
pub mod RememberedSteps
pub mod Replay
pub mod Sent
pub mod Distribution
