-- ===== src/Wired/Macsec/TxSettled.antt =====
-- What the device of wired/macsec.rs keeps between two calls, and that its transmit SAs keep it.
use shuli.Base.{
  AllOption, retain-All, ℕ, ◌≡◌, Bool, true, false, not, Option, none, some, List, [], ◌∷◌, ◌++◌,
  All, find, is_some, if◌then◌else◌,
}
use shuli.Base.Outcome.{
  Outcome, ok, err, panic, out_of_fuel, ◌>>=◌, Ensures, Ensures-next, Ensures-bind, Ensures-if,
}
use shuli.Core.Types.{ErrorKind}
use shuli.Wired.Mka.Types.{KeyId}
use shuli.Wired.Macsec.Device.{apply, encode_if, refresh_tx, replace_tx, install_tx_sa}
use shuli.Wired.Macsec.Lists.{
  Lacks, AreSettled, remove_first-AreSettled, find-Lacks, placed-AreSettled, activate-AreSettled,
}
use shuli.Wired.Macsec.Desired.{
  MacsecSaConfig, MacsecRxScConfig, Kernel, MacsecDevice, keyid_bytes, or_empty, update_first,
  remove_first, is_an, is_sc, activate, new_sa, has_key, has_an, tx_of, rx_of, with_tx,
  forget_tx_sa_pn, sas_of, keep_others, activate_in,
}

-- The crate's new receive channel has the SCI that is given, and no SAs.
pub record Documented (k : Kernel) : Type 0 where
  pub sci : (n : ℕ) → (k.new_rx_sc n).sci ≡ n
  pub sa_list : (n : ℕ) → (k.new_rx_sc n).sa_list ≡ none

abbrev pub IsSettledSc : MacsecRxScConfig → Type 0
IsSettledSc sc = AreSettled (or_empty sc.sa_list)

-- Between two calls no SA of the device carries a packet number, and the SAs of a channel have
-- different ANs.
pub record IsSettled (dev : MacsecDevice) : Type 0 where
  pub tx : AreSettled (tx_of dev)
  pub rx : All IsSettledSc (rx_of dev)

pub if-All :
    (test : Bool) (xs ys : List MacsecRxScConfig)
    → All IsSettledSc xs
    → All IsSettledSc ys
    → All IsSettledSc (if test then xs else ys)
if-All true xs ys h g = h
if-All false xs ys h g = g

pub AllOption-unit : {A : Type 0} (o : Option A) → AllOption (λ _. Unit {0}) o
AllOption-unit none = tt
AllOption-unit (some a) = tt

pub sas_of-Lacks :
    (an : ℕ) (sc : Option MacsecRxScConfig)
    → is_some (find (is_an an) (sas_of sc)) ≡ false
    → AllOption (λ found. Lacks an (or_empty found.sa_list)) sc
sas_of-Lacks an none h = tt
sas_of-Lacks an (some sc) h = find-Lacks an (or_empty sc.sa_list) h

pub keep_others-All :
    (sci : ℕ) (scs : Option (List MacsecRxScConfig))
    → All IsSettledSc (or_empty scs)
    → All IsSettledSc (or_empty (keep_others sci scs))
unfolding keep_others
keep_others-All sci none h = tt
keep_others-All sci (some scs) h = retain-All IsSettledSc (λ sc. not (is_sc sci sc)) scs h

pub activate_in-AreSettled :
    (an : ℕ) (sas : Option (List MacsecSaConfig))
    → AreSettled (or_empty sas)
    → AreSettled (or_empty (activate_in an sas))
unfolding activate_in
activate_in-AreSettled an none h = tt
activate_in-AreSettled an (some sas) h = activate-AreSettled an sas h

applied-next :
    (Q : MacsecDevice → Type 0) (m : Outcome ErrorKind (Unit {0})) (dev : MacsecDevice)
    (f : MacsecDevice → Outcome ErrorKind MacsecDevice)
    → Ensures Q (f dev)
    → Ensures Q ((m >>= λ _. ok dev) >>= f)
applied-next Q (ok done) dev f h = h
applied-next Q (err kind) dev f h = tt
applied-next Q panic dev f h = tt
applied-next Q out_of_fuel dev f h = tt

module _ (k : Kernel) where
  pub apply-Ensures :
      (P : MacsecDevice → Type 0) (dev : MacsecDevice) → P dev → Ensures P (apply k dev)
  unfolding apply
  apply-Ensures P dev h = search (Ensures-next) depth 5

  pub encode_if-IsSettled :
      (active : Bool) (an : ℕ) (dev : MacsecDevice)
      → IsSettled dev
      → Ensures IsSettled (encode_if k active an dev)
  unfolding encode_if
  encode_if-IsSettled true an dev h = search (Ensures-next) depth 5
  encode_if-IsSettled false an dev h = h

  tx-IsSettled :
      (an : ℕ) (active : Bool) (key_id sak : List ℕ) (dev : MacsecDevice)
      → Lacks an (tx_of dev)
      → IsSettled dev
      → IsSettled
          (forget_tx_sa_pn an (with_tx (tx_of dev ++ (new_sa an active key_id sak ∷ [])) dev))
  unfolding forget_tx_sa_pn
  tx-IsSettled an active key_id sak dev lacks h = record {
    tx = placed-AreSettled an active key_id sak (tx_of dev) h.tx lacks;
    rx = h.rx;
  }

  -- The place of the AN is free, and the device is settled.
  abbrev IsFree : ℕ → MacsecDevice → Type 0
  IsFree an dev = Lacks an (tx_of dev) × IsSettled dev

  replace_tx-IsFree :
      (an : ℕ) (dev : MacsecDevice) → IsSettled dev → Ensures (IsFree an) (replace_tx k an dev)
  unfolding replace_tx apply has_an
  replace_tx-IsFree an dev h =
      let (settled, lacks) = remove_first-AreSettled an (tx_of dev) h.tx in
      Ensures-if (IsFree an) (is_some (find (is_an an) (tx_of dev))) _ _
        (λ _.
          apply-Ensures (IsFree an) (with_tx (remove_first (is_an an) (tx_of dev)) dev)
            (lacks, record { tx = settled; rx = h.rx }))
        (λ absent. (find-Lacks an (tx_of dev) absent, record { tx = h.tx; rx = h.rx }))

  -- The device goes on as it was applied.
  pub apply-next :
      (Q : MacsecDevice → Type 0) (dev : MacsecDevice)
      (f : MacsecDevice → Outcome ErrorKind MacsecDevice)
      → Ensures Q (f dev)
      → Ensures Q (apply k dev >>= f)
  unfolding apply
  apply-next Q dev f h = applied-next Q (k.apply dev.desired) dev f h

  install_fresh_tx-IsSettled :
      (an : ℕ) (active : Bool) (key_id sak : List ℕ) (dev : MacsecDevice)
      → IsFree an dev
      → Ensures IsSettled (do
        applied ← apply k (with_tx (tx_of dev ++ (new_sa an active key_id sak ∷ [])) dev)
        encode_if k active an (forget_tx_sa_pn an applied))
  install_fresh_tx-IsSettled an active key_id sak dev (lacks, h) =
      apply-next IsSettled _ _
        (encode_if-IsSettled active an _ (tx-IsSettled an active key_id sak dev lacks h))

  refresh_tx-IsSettled :
      (an : ℕ) (active : Bool) (dev : MacsecDevice)
      → IsSettled dev
      → Ensures IsSettled (refresh_tx k an active dev)
  unfolding refresh_tx
  refresh_tx-IsSettled an active dev h =
      Ensures-bind IsSettled IsSettled _ _ (apply-Ensures IsSettled _ (refreshed active))
        (encode_if-IsSettled active an)
    where
      refreshed :
          (b : Bool)
          → IsSettled
              (if b then with_tx (update_first (is_an an) activate (tx_of dev)) dev else dev)
      refreshed true = record { tx = activate-AreSettled an (tx_of dev) h.tx; rx = h.rx }
      refreshed false = h

  pub install_tx_sa-IsSettled :
      (dev : MacsecDevice) (an : ℕ) (ki : KeyId) (sak : List ℕ) (active : Bool)
      → IsSettled dev
      → Ensures IsSettled (install_tx_sa k dev an ki sak active)
  unfolding install_tx_sa
  install_tx_sa-IsSettled dev an ki sak active h =
      Ensures-if IsSettled (has_key an (keyid_bytes ki) (tx_of dev)) _ _
        (λ _.
          refresh_tx-IsSettled an active (with_tx (tx_of dev) dev)
            (record { tx = h.tx; rx = h.rx }))
        (λ _.
          Ensures-bind IsSettled (IsFree an) (replace_tx k an dev) _ (replace_tx-IsFree an dev h)
            (install_fresh_tx-IsSettled an active (keyid_bytes ki) sak))
