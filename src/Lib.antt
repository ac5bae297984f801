-- ===== src/Lib.antt =====
-- shuli is a network authentication daemon: WiFi, wired 802.1X and IPsec supplicants. This
-- library models five parts of it. The first is the message and key layer of its IKEv2
-- implementation, src/ipsec/ikev2, which turns octets into messages and back, negotiates
-- algorithms and protects messages with keys. The second is the EAP peer of src/core, which the
-- WiFi and the wired client feed with packets. The third is the cache of WiFi master keys,
-- src/wifi/pmksa.rs. The fourth is MACsec Key Agreement on wired ports, src/wired/mka.rs, with
-- the MACsec device that it programs, src/wired/macsec.rs: participants of one connectivity
-- association elect a Key Server among them, which distributes the key that the devices encrypt
-- with. The fifth is the supplicant of the 4-way handshake, src/wifi/crypto/handshake4.rs.
--
-- The parts, from the octets up, with the files that model them:
--   Base           lists, comparisons, octets and slices over the native ℕ. A `u16` field is
--                  `be16` and `u16_at`; an index or slice out of range is the outcome `panic`.
--   Ike/Types      the structs and enums of src/ipsec/ikev2/codec.rs and the kinds of
--                  src/ipsec/error.rs.
--   Ike/Header     `IkeHeader::encode` and `decode`.
--   Ike/Sa         `encode_sa` and `decode_sa`: proposals, transforms and attributes.
--   Ike/Selector   `encode_ts_selector` and `decode_ts`.
--   Ike/Payload    `Payload::encode_body` and `decode_payload`.
--   Ike/Chain      `encode_chain` and `decode_chain`, which link payloads by generic headers.
--   Ike/Message    `Message::encode` and `decode`: a header and a chain.
--   Ike/Algorithm  the algorithm tables of src/ipsec/config.rs.
--   Ike/Proposal   src/ipsec/ikev2/proposal.rs: `build_ike`, `select_ike`, `parse_selected_ike`
--                  and the same for ESP.
--   Ike/Crypto     the wrappers of src/ipsec/ikev2/crypto.rs. What `ring`, `cbc` and
--                  `getrandom` compute is the parameter `Primitives`, and what they document is
--                  `Documented`.
--   Ike/Keys       `IkeKeys::derive`, `derive_child_keys` and the keys that each role uses.
--   Ike/Seal       `seal_message` and `open_message`.
--   Core/Eapol     `EapolEapFrame` of src/core/eapol.rs.
--   Core/Eap       `EapPacket` and `EapPeer` of src/core/eap.rs. The trait `EapMethod` is a
--                  record of functions on a state, which every theorem takes as a parameter.
--   Core/EapTls    the framing of `EapTlsMethod` of src/core/eap_tls.rs: `next_tx_fragment`,
--                  and `handle_request` up to the hand-over of a message to TLS. The creation
--                  of the TLS connection is a parameter.
--   Wifi/Pmksa     `PmksaEntry` and `PmksaCache` of src/wifi/pmksa.rs, over readings of the
--                  clock.
--   Wifi/Handshake4  `FourWayState` of src/wifi/crypto/handshake4.rs: Crypto has the key
--                    derivation, State the struct and the PTK, and Messages
--                    `process_message_1`, `process_message_3` and `process_group_rekey`, which
--                    leave a state beside their result. The frames of `wl_nl80211` are the
--                    parameter `Frames`.
--   Wired/Mka/Types    the constants and structs of src/wired/mka.rs.
--   Wired/Mka/Kdf      `aes_kdf`, the keys derived with it, `wrap_key` and `unwrap_key`. What
--                      the crates for AES-CMAC and AES key wrap compute is the parameter
--                      `Primitives`.
--   Wired/Mka/Pdu      the codec of MKPDUs: Read has `parse_body`, Write the body that
--                      `build_eapol` writes, and Frame `parse`, `build_eapol` and the ICV.
--   Wired/Mka/Session  `MkaSession`: State has the struct and what it calls, Peers the lists it
--                      makes of its peers, Election `elect_key_server`, Sak the distribution
--                      and installation of keys, Receive and Handle `handle_frame`, and Run
--                      `new` and `run`. The device is the parameter `DeviceOps`; the clock,
--                      random octets and the socket are the `World` of a step, in which every
--                      reading of the clock is the same.
--   Wired/Macsec   `MacsecDevice` of src/wired/macsec.rs: Desired has the configuration that it
--                  wants the kernel to have, and Device its operations, which fill `DeviceOps`.
--                  The crate `nl-macsec` and the change of the encoding SA are the parameter
--                  `Kernel`.
--   Runs           tests, and the theorems at concrete inputs.
-- Proofs stand in children named for what they prove: RoundTrip, Total, Agree, Select,
-- SelectEsp, Laws, Authentic, Replay, Exchange, Bounds, Lookup, Agreement, Reachable and their
-- like.
--
-- The result type `Outcome` has the errors of the source, a panic and `out_of_fuel`. A `while`
-- loop recurses on fuel: one more than the octets left for the decoders, each of whose rounds
-- takes an octet or more, one more than the octets asked for in `prf_plus`, and 256 for the
-- rounds of `aes_kdf`, whose counter is a `u8` that starts at 1 and may not pass 255. `Returns`
-- says of a result that it is neither a panic nor out of fuel. A vector that a loop pushes onto
-- is the list that the loop returns, and an offset into a buffer is the list behind it.
--
-- Not modelled: error messages; zeroing of key memory; the IKE engine with its timers and
-- sockets (src/ipsec/ikev2/engine.rs, src/ipsec/ikev2/transport.rs); certificates
-- (src/ipsec/ikev2/auth); the kernel's XFRM interface (src/ipsec/xfrm); the TLS connection, key
-- export and certificates of src/core/eap_tls.rs; the rest of the WiFi crate (src/wifi); the
-- wired client and its EAP sockets (src/wired/client.rs, src/wired/eap.rs), and the creation
-- and removal of the MACsec netdev; what an operation of an MKA session or a device that fails
-- has changed before it fails; the daemon (src/daemon). They are I/O around third-party crates,
-- or state machines that build on the parts modelled here.
pub mod Base
pub mod Core
pub mod Ike
pub mod Runs
pub mod Wifi
pub mod Wired
