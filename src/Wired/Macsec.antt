-- ===== src/Wired/Macsec.antt =====
-- `MacsecDevice` of wired/macsec.rs: what it wants the kernel to have. The crate `nl-macsec`, which
-- makes the kernel have it, and the change of the encoding SA by `rtnetlink` are the parameter
-- `Kernel`.
pub mod Desired
pub mod Device
pub mod Lists
pub mod TxSettled
pub mod Settled
pub mod Accepts
