-- ===== src/Wifi/Handshake4/State.antt =====
-- `FourWayState` of wifi/crypto/handshake4.rs, its keys, and what it takes from `wl_nl80211`.
use shuli.Base.{ℕ, Bool, Option, none, some, List, ◌++◌, take, drop, ltb, if◌then◌else◌, bytes_lt}
use shuli.Base.Outcome.{Outcome, ok, err, panic, out_of_fuel, ◌>>=◌}
use shuli.Core.Types.{ErrorKind, handshake_failed}
use shuli.Wifi.Pmksa.{MicAlg, aes_cmac, hmac_sha256, hmac_sha1}
use shuli.Wifi.Handshake4.Crypto.{Primitives, pairwise_label, kdf, prf_sha1, derive_ft_ptk}
use shuli.Wired.Macsec.Desired.{from_octets}

-- `Ieee80211EapolKeyFrame`, by the fields and methods that the handshake reads.
pub record KeyFrame : Type 0 where
  pub raw : List ℕ
  pub replay_counter : ℕ
  pub key_nonce : List ℕ
  pub key_mic : List ℕ
  pub key_rsc : List ℕ
  pub key_data : List ℕ
  pub is_encrypted_data : Bool
  pub desc_version : ℕ

-- `Ieee80211KeyDataKdes`, by the fields that the handshake reads.
pub record KeyDataKdes : Type 0 where
  pub gtk : Option (ℕ × List ℕ)
  pub key_id : Option ℕ
  pub rsne : Option (List ℕ)
  pub rsnxe : Option (List ℕ)

-- The functions of `wl_nl80211`. The arguments of the builders stand in the crate's order.
pub record Frames : Type 0 where
  pub build_message_2 : List ℕ → ℕ → List ℕ → ℕ → List ℕ
  pub build_message_4 : List ℕ → ℕ → ℕ → List ℕ
  pub build_group_message_2 : ℕ → List ℕ → ℕ → List ℕ
  pub pdu_with_zeroed_mic : List ℕ → List ℕ
  pub set_mic : List ℕ → List ℕ → List ℕ
  pub parse_key_data_kdes : List ℕ → KeyDataKdes
  pub build_oci_kde : List ℕ → List ℕ
  pub parse_oci_kde : List ℕ → Option (List ℕ)
  pub matches_freq : List ℕ → ℕ → Bool
  pub rsne_match_ignore_pmkid : List ℕ → List ℕ → Bool

-- `ft_pmk_r1` is the key of the PMK-R1; its name is not read here.
pub record FourWayState : Type 0 where
  pub pmk : List ℕ
  pub mac_sta : List ℕ
  pub mac_ap : List ℕ
  pub anonce : Option (List ℕ)
  pub snonce : List ℕ
  pub ptk : Option (List ℕ)
  pub tptk : Option (List ℕ)
  pub replay_counter : ℕ
  pub replay_counter_set : Bool
  pub pending_replay_counter : Option ℕ
  pub rsne : List ℕ
  pub ap_rsne : List ℕ
  pub ap_rsnxe : List ℕ
  pub gtk : Option (List ℕ)
  pub gtk_index : ℕ
  pub mic_alg : MicAlg
  pub desc_version : ℕ
  pub ft_pmk_r1 : Option (List ℕ)
  pub ocv : Bool
  pub oci : Option (List ℕ)
  pub freq_mhz : ℕ
  pub ext_key_id : Bool
  pub key_id : Option ℕ

-- A method leaves a state beside its result, an error too.
abbrev pub Step : Type 0 → Type 0
Step A = FourWayState × Outcome ErrorKind A

-- `?` on a result that is computed in a state.
unfoldable pub keep : {A B : Type 0} → FourWayState → Outcome ErrorKind A → (A → Step B) → Step B
keep s (ok a) f = f a
keep s (err kind) f = (s, err kind)
keep s panic f = (s, panic)
keep s out_of_fuel f = (s, out_of_fuel)

unfoldable pub after : {A B : Type 0} → Step A → (FourWayState → A → Step B) → Step B
after (s, m) f = keep s m (f s)

-- `ok_or_else(..)?`, and `expect`.
abbrev pub or_refused : {A : Type 0} → Option A → Outcome ErrorKind A
or_refused none = err handshake_failed
or_refused (some a) = ok a

abbrev pub or_panic : {A : Type 0} → Option A → Outcome ErrorKind A
or_panic none = panic
or_panic (some a) = ok a

unfoldable pub handshake_ptk : FourWayState → Option (List ℕ)
handshake_ptk s = elim s.tptk [ none ↦ s.ptk | some ptk ↦ some ptk ]

-- The parts of a PTK of 48 octets.
abbrev pub kck_of : Option (List ℕ) → Option (List ℕ)
kck_of none = none
kck_of (some ptk) = some (take 16 ptk)

abbrev pub kek_of : Option (List ℕ) → Option (List ℕ)
kek_of none = none
kek_of (some ptk) = some (take 16 (drop 16 ptk))

unfoldable pub u64_from_mac : List ℕ → ℕ
u64_from_mac mac = from_octets mac 0

-- `mac1` and `mac2`, and `nonce1` and `nonce2`.
unfoldable pub macs_in_order : List ℕ → List ℕ → List ℕ
macs_in_order mac_ap mac_sta =
    if ltb (u64_from_mac mac_ap) (u64_from_mac mac_sta)
    then mac_ap ++ mac_sta
    else mac_sta ++ mac_ap

unfoldable pub nonces_in_order : List ℕ → List ℕ → List ℕ
nonces_in_order anonce snonce =
    if bytes_lt anonce snonce then anonce ++ snonce else snonce ++ anonce

module _ (c : Primitives) where
  unfoldable pub pairwise_ptk : MicAlg → List ℕ → List ℕ → Outcome ErrorKind (List ℕ)
  pairwise_ptk hmac_sha1 pmk context = prf_sha1 c pmk pairwise_label context 48
  pairwise_ptk aes_cmac pmk context = kdf c pmk pairwise_label context 48
  pairwise_ptk hmac_sha256 pmk context = kdf c pmk pairwise_label context 48

  unfoldable pub derive_ptk : FourWayState → Outcome ErrorKind (List ℕ)
  derive_ptk s = do
    anonce ← or_panic s.anonce
    elim s.ft_pmk_r1 [
      | some pmk_r1 ↦ derive_ft_ptk c pmk_r1 s.snonce anonce s.mac_ap s.mac_sta
      | none ↦
          pairwise_ptk s.mic_alg s.pmk
            (macs_in_order s.mac_ap s.mac_sta ++ nonces_in_order anonce s.snonce)
    ]
