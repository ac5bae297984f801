-- ===== src/Wired/Mka/Types.antt =====
-- The constants and structs of wired/mka.rs. An array of octets is a list.
use shuli.Base.{ℕ, ◌*◌, ◌^◌, Bool, not, Option, List, [], ◌∷◌, length, ltb, ◌==◌, ◌||◌, replicate}
use shuli.Base.Outcome.{Outcome, ok, refuse_if, ◌>>◌}
use shuli.Core.Types.{ErrorKind, handshake_failed}

abbrev pub mka_version : ℕ
mka_version = 3

abbrev pub eapol_type_mka : ℕ
eapol_type_mka = 5

abbrev pub eapol_version : ℕ
eapol_version = 3

abbrev pub icv_len : ℕ
icv_len = 16

abbrev pub mi_len : ℕ
mi_len = 12

-- In nanoseconds, the unit of every `Instant` and `Duration` here.
abbrev pub mka_hello : ℕ
mka_hello = 2 * 1000000000

abbrev pub mka_life : ℕ
mka_life = 6 * 1000000000

abbrev pub algo_agility : List ℕ
algo_agility = 0 ∷ 128 ∷ 194 ∷ 1 ∷ []

abbrev pub macsec_cap_not_implemented : ℕ
macsec_cap_not_implemented = 0

abbrev pub macsec_cap_integrity_confidentiality : ℕ
macsec_cap_integrity_confidentiality = 2

abbrev pub pn_exhaustion : ℕ
pn_exhaustion = 3 * 2 ^ 30

-- `PAE_GROUP_ADDR` of wired/eap.rs.
abbrev pub pae_group_addr : List ℕ
pae_group_addr = 1 ∷ 128 ∷ 194 ∷ 0 ∷ 0 ∷ 3 ∷ []

-- `[0u8; 8]`, an SCI that is not known.
abbrev pub no_sci : List ℕ
no_sci = replicate 8 0

pub record KeyId : Type 0 where
  pub mi : List ℕ
  pub kn : ℕ

pub record PeerId : Type 0 where
  pub mi : List ℕ
  pub mn : ℕ

pub record MkaBasic : Type 0 where
  pub version : ℕ
  pub priority : ℕ
  pub key_server : Bool
  pub macsec_desired : Bool
  pub macsec_capability : ℕ
  pub sci : List ℕ
  pub mi : List ℕ
  pub mn : ℕ
  pub algo_agility : List ℕ
  pub ckn : List ℕ

pub record SakUse : Type 0 where
  pub latest_an : ℕ
  pub latest_tx : Bool
  pub latest_rx : Bool
  pub old_an : ℕ
  pub old_tx : Bool
  pub old_rx : Bool
  pub plain_tx : Bool
  pub plain_rx : Bool
  pub delay_protect : Bool
  pub latest_ki : KeyId
  pub latest_llpn : ℕ
  pub old_ki : KeyId
  pub old_llpn : ℕ

pub record DistSak : Type 0 where
  pub an : ℕ
  pub confidentiality_offset : ℕ
  pub kn : ℕ
  pub cipher_suite : Option (List ℕ)
  pub wrapped_sak : List ℕ

pub record MkaPdu : Type 0 where
  pub basic : MkaBasic
  pub live_peers : List PeerId
  pub potential_peers : List PeerId
  pub sak_use : Option SakUse
  pub dist_sak : Option DistSak

pub record MacsecConfig : Type 0 where
  pub cak : List ℕ
  pub ckn : List ℕ
  pub key_server_priority : ℕ
  pub can_be_key_server : Bool
  pub macsec_iface : Option (List ℕ)
  pub replay_window : ℕ
  pub encrypt : Bool

unfoldable pub validate : MacsecConfig → Outcome ErrorKind (Unit {0})
validate config = do
  refuse_if (not (length config.cak == 16 || length config.cak == 32)) handshake_failed
  refuse_if (length config.ckn == 0 || ltb 32 (length config.ckn)) handshake_failed
  ok tt
