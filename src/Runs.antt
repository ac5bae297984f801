-- ===== src/Runs.antt =====
-- Tests, and the theorems applied at concrete inputs.
mod Codec
mod Payloads
mod Suites
mod Secured
mod Cache
mod Peer
mod Tls
mod Mka
mod MkaEnds
mod MkaSessions
mod MkaRuns
mod Macsec
mod Handshake4
