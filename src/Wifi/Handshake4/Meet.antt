-- ===== src/Wifi/Handshake4/Meet.antt =====
-- The supplicant and the authenticator derive one PTK.
use shuli.Base.{
  ℕ, ◌≡◌, ◌≢◌, refl, arith, true, false, none, some, List, ltb, inl, inr, Bool-cases, bytes_lt,
  bytes_lt-asymmetric, bytes_lt-connected,
}
use shuli.Wifi.Handshake4.Crypto.{Primitives}
use shuli.Wifi.Handshake4.State.{
  FourWayState, u64_from_mac, macs_in_order, nonces_in_order, derive_ptk,
}

macs_in_order_comm :
    (a b : List ℕ) → u64_from_mac a ≢ u64_from_mac b → macs_in_order a b ≡ macs_in_order b a
unfolding macs_in_order
macs_in_order_comm a b different = elim (Bool-cases (ltb (u64_from_mac a) (u64_from_mac b))) [
  | inl below ↦
      let above : ltb (u64_from_mac b) (u64_from_mac a) ≡ false = ground arith in
      rw (below, above) refl
  | inr not_below ↦
      let above : ltb (u64_from_mac b) (u64_from_mac a) ≡ true = ground (arith, different) in
      rw (not_below, above) refl
]

nonces_in_order_comm : (a b : List ℕ) → nonces_in_order a b ≡ nonces_in_order b a
unfolding nonces_in_order
nonces_in_order_comm a b = elim (Bool-cases (bytes_lt a b)) [
  | inl below ↦ rw (below, bytes_lt-asymmetric a b below) refl
  | inr above ↦ elim (Bool-cases (bytes_lt b a)) [
    | inl below ↦ rw (above, below) refl
    | inr equal ↦ rw (above, equal, bytes_lt-connected a b above equal) refl
  ]
]

-- The state of the other end: the addresses and the nonces are swapped.
abbrev pub other_end : List ℕ → FourWayState → FourWayState
other_end anonce s = record s {
  mac_sta = s.mac_ap;
  mac_ap = s.mac_sta;
  snonce = anonce;
  anonce = some s.snonce;
}

-- Without FT, the ends of a handshake with different addresses derive the same PTK, though each
-- takes its own address and nonce for the station's.
pub derive_ptk-meet :
    (c : Primitives) (s : FourWayState) (anonce : List ℕ)
    → s.anonce ≡ some anonce
    → s.ft_pmk_r1 ≡ none
    → u64_from_mac s.mac_ap ≢ u64_from_mac s.mac_sta
    → derive_ptk c s ≡ derive_ptk c (other_end anonce s)
unfolding derive_ptk
derive_ptk-meet c s anonce own no_ft different =
    rw
      (
        own,
        no_ft,
        macs_in_order_comm s.mac_ap s.mac_sta different,
        nonces_in_order_comm anonce s.snonce,
      )
      refl
