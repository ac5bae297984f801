-- ===== src/Wired/Macsec/Desired.antt =====
-- What `MacsecDevice` of wired/macsec.rs wants the kernel to have, and the edits of it.
use shuli.Base.{
  ℕ, ◌+◌, ◌*◌, ◌^◌, Bool, true, not, Option, none, some, List, [], ◌∷◌, ◌++◌, ◌==◌, find, retain,
  bytes_eq, is_some, is_some_and, if◌then◌else◌,
}
use shuli.Base.Outcome.{Outcome}
use shuli.Base.Bytes.{be32}
use shuli.Core.Types.{ErrorKind}
use shuli.Wired.Mka.Types.{KeyId}

-- `MacsecSaConfig`, `MacsecRxScConfig` and `MacsecConfig` of `nl-macsec`, by the fields that the
-- device sets.
pub record MacsecSaConfig : Type 0 where
  pub an : ℕ
  pub pn : Option ℕ
  pub active : Option Bool
  pub key_id : List ℕ
  pub key : Option (List ℕ)

pub record MacsecRxScConfig : Type 0 where
  pub sci : ℕ
  pub active : Option Bool
  pub sa_list : Option (List MacsecSaConfig)

pub record NlMacsecConfig : Type 0 where
  pub tx_sa : Option (List MacsecSaConfig)
  pub rx_sc : Option (List MacsecRxScConfig)

-- `MacsecHandle::apply`, the link change of `set_encoding_sa`, and `MacsecRxScConfig::new`.
pub record Kernel : Type 0 where
  pub apply : NlMacsecConfig → Outcome ErrorKind (Unit {0})
  pub set_encoding_sa : ℕ → Outcome ErrorKind (Unit {0})
  pub new_rx_sc : ℕ → MacsecRxScConfig

pub record MacsecDevice : Type 0 where
  pub desired : NlMacsecConfig

unfoldable pub keyid_bytes : KeyId → List ℕ
keyid_bytes ki = ki.mi ++ be32 ki.kn

unfoldable pub from_octets : List ℕ → ℕ → ℕ
from_octets [] value = value
from_octets (octet ∷ octets) value = from_octets octets (value * 2 ^ 8 + octet)

-- `u64::from_be_bytes`
unfoldable pub sci_be : List ℕ → ℕ
sci_be octets = from_octets octets 0

-- `get_or_insert_with(Vec::new)`
abbrev pub or_empty : {A : Type 0} → Option (List A) → List A
or_empty none = []
or_empty (some xs) = xs

-- `iter_mut().find(p)`, and the assignment to what it finds.
unfoldable pub update_first : {A : Type 0} → (A → Bool) → (A → A) → List A → List A
update_first p f [] = []
update_first p f (x ∷ xs) = let later = x ∷ update_first p f xs in if p x then f x ∷ xs else later

-- `remove(pos)` of the position that the test gives.
unfoldable pub remove_first : {A : Type 0} → (A → Bool) → List A → List A
remove_first p [] = []
remove_first p (x ∷ xs) = let later = x ∷ remove_first p xs in if p x then xs else later

abbrev pub is_an : ℕ → MacsecSaConfig → Bool
is_an an sa = sa.an == an

abbrev pub is_sc : ℕ → MacsecRxScConfig → Bool
is_sc sci sc = sc.sci == sci

abbrev pub forget_pn : MacsecSaConfig → MacsecSaConfig
forget_pn sa = record sa { pn = none }

abbrev pub activate : MacsecSaConfig → MacsecSaConfig
activate sa = record sa { active = some true }

-- The SA that is pushed, with its first packet number.
unfoldable pub new_sa : ℕ → Bool → List ℕ → List ℕ → MacsecSaConfig
new_sa an active key_id sak = record {
  an = an;
  pn = some 1;
  active = some active;
  key_id = key_id;
  key = some sak;
}

-- `same_key`, and whether there is an SA to replace.
unfoldable pub has_key : ℕ → List ℕ → List MacsecSaConfig → Bool
has_key an key_id sas = is_some_and (λ sa. bytes_eq sa.key_id key_id) (find (is_an an) sas)

unfoldable pub has_an : ℕ → List MacsecSaConfig → Bool
has_an an sas = is_some (find (is_an an) sas)

abbrev pub tx_of : MacsecDevice → List MacsecSaConfig
tx_of dev = or_empty dev.desired.tx_sa

abbrev pub rx_of : MacsecDevice → List MacsecRxScConfig
rx_of dev = or_empty dev.desired.rx_sc

abbrev pub with_tx : List MacsecSaConfig → MacsecDevice → MacsecDevice
with_tx sas dev = record dev { desired = record dev.desired { tx_sa = some sas } }

abbrev pub with_rx : List MacsecRxScConfig → MacsecDevice → MacsecDevice
with_rx scs dev = record dev { desired = record dev.desired { rx_sc = some scs } }

-- `forget_tx_sa_pn` and `forget_rx_sa_pn`.
unfoldable pub forget_tx_sa_pn : ℕ → MacsecDevice → MacsecDevice
forget_tx_sa_pn an dev = with_tx (update_first (is_an an) forget_pn (tx_of dev)) dev

abbrev pub forget_in : ℕ → MacsecRxScConfig → MacsecRxScConfig
forget_in an sc = record sc {
  sa_list = some (update_first (is_an an) forget_pn (or_empty sc.sa_list));
}

unfoldable pub forget_rx_sa_pn : ℕ → ℕ → MacsecDevice → MacsecDevice
forget_rx_sa_pn sci an dev = with_rx (update_first (is_sc sci) (forget_in an) (rx_of dev)) dev

-- The receive channel of an SCI, which is pushed where there is none, and its SAs.
unfoldable pub ensure_rx_sc : Kernel → ℕ → List MacsecRxScConfig → List MacsecRxScConfig
ensure_rx_sc k sci scs =
    if is_some (find (is_sc sci) scs) then scs else scs ++ (k.new_rx_sc sci ∷ [])

abbrev pub sas_of : Option MacsecRxScConfig → List MacsecSaConfig
sas_of none = []
sas_of (some sc) = or_empty sc.sa_list

-- `rx_scs[index].active = Some(true)`, on the channel with an SA list.
abbrev pub open_sc : MacsecRxScConfig → MacsecRxScConfig
open_sc sc = record sc { active = some true; sa_list = some (or_empty sc.sa_list) }

abbrev pub remove_in : ℕ → MacsecRxScConfig → MacsecRxScConfig
remove_in an sc = record sc { sa_list = some (remove_first (is_an an) (or_empty sc.sa_list)) }

abbrev pub push_in : MacsecSaConfig → MacsecRxScConfig → MacsecRxScConfig
push_in sa sc = record sc { sa_list = some (or_empty sc.sa_list ++ (sa ∷ [])) }

unfoldable pub opened : Kernel → ℕ → MacsecDevice → MacsecDevice
opened k sci dev = with_rx (update_first (is_sc sci) open_sc (ensure_rx_sc k sci (rx_of dev))) dev

-- `if let Some(rx_scs)`, and `if let Some(tx_sa)`.
unfoldable pub keep_others : ℕ → Option (List MacsecRxScConfig) → Option (List MacsecRxScConfig)
keep_others sci none = none
keep_others sci (some scs) = some (retain (λ sc. not (is_sc sci sc)) scs)

unfoldable pub activate_in : ℕ → Option (List MacsecSaConfig) → Option (List MacsecSaConfig)
activate_in an none = none
activate_in an (some sas) = some (update_first (is_an an) activate sas)

unfoldable pub without_sc : ℕ → MacsecDevice → MacsecDevice
without_sc sci dev = record dev {
  desired = record dev.desired { rx_sc = keep_others sci dev.desired.rx_sc };
}

unfoldable pub activated : ℕ → MacsecDevice → MacsecDevice
activated an dev = record dev {
  desired = record dev.desired { tx_sa = activate_in an dev.desired.tx_sa };
}
