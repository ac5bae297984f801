-- ===== src/Wired/Macsec/Device.antt =====
-- The operations of `MacsecDevice` of wired/macsec.rs.
use shuli.Base.{ℕ, Bool, true, false, some, List, [], ◌∷◌, ◌++◌, find, if◌then◌else◌}
use shuli.Base.Outcome.{Outcome, ok, ◌>>=◌, ◌>>◌}
use shuli.Core.Types.{ErrorKind}
use shuli.Wired.Mka.Types.{KeyId}
use shuli.Wired.Mka.Session.State.{DeviceOps}
use shuli.Wired.Macsec.Desired.{
  Kernel, MacsecDevice, keyid_bytes, sci_be, update_first, remove_first, is_an, is_sc, activate,
  new_sa, has_key, has_an, tx_of, rx_of, with_tx, with_rx, forget_tx_sa_pn, forget_rx_sa_pn, sas_of,
  remove_in, push_in, opened, without_sc, activated,
}

module _ (k : Kernel) where
  unfoldable pub apply : MacsecDevice → Outcome ErrorKind MacsecDevice
  apply dev = do k.apply dev.desired; ok dev

  -- `if active { self.set_encoding_sa(an).await?; }`
  unfoldable pub encode_if : Bool → ℕ → MacsecDevice → Outcome ErrorKind MacsecDevice
  encode_if false an dev = ok dev
  encode_if true an dev = do k.set_encoding_sa an; ok dev

  unfoldable pub remove_rx_sc : MacsecDevice → List ℕ → Outcome ErrorKind MacsecDevice
  remove_rx_sc dev peer_sci = apply (without_sc (sci_be peer_sci) dev)

  unfoldable pub clear_sas : MacsecDevice → Outcome ErrorKind MacsecDevice
  clear_sas dev = apply (record dev { desired = record { tx_sa = some []; rx_sc = some [] } })

  -- An SA with this key identifier is there: its packet number is left alone.
  unfoldable pub refresh_tx : ℕ → Bool → MacsecDevice → Outcome ErrorKind MacsecDevice
  refresh_tx an active dev = do
    applied ←
        apply (if active then with_tx (update_first (is_an an) activate (tx_of dev)) dev else dev)
    encode_if active an applied

  -- The old SA of this AN is deleted in the kernel before the new one is installed.
  unfoldable pub replace_tx : ℕ → MacsecDevice → Outcome ErrorKind MacsecDevice
  replace_tx an dev =
      if has_an an (tx_of dev)
      then apply (with_tx (remove_first (is_an an) (tx_of dev)) dev)
      else ok (with_tx (tx_of dev) dev)

  unfoldable pub install_tx_sa :
      MacsecDevice → ℕ → KeyId → List ℕ → Bool → Outcome ErrorKind MacsecDevice
  install_tx_sa dev an ki sak active =
      let fresh = (do
        free ← replace_tx an dev
        applied ← apply (with_tx (tx_of free ++ (new_sa an active (keyid_bytes ki) sak ∷ [])) free)
        encode_if active an (forget_tx_sa_pn an applied)) in
      if has_key an (keyid_bytes ki) (tx_of dev)
      then refresh_tx an active (with_tx (tx_of dev) dev)
      else fresh

  unfoldable pub set_tx_sa_active : MacsecDevice → ℕ → Outcome ErrorKind MacsecDevice
  set_tx_sa_active dev an = do applied ← apply (activated an dev); encode_if true an applied

  unfoldable pub replace_rx : ℕ → ℕ → MacsecDevice → Outcome ErrorKind MacsecDevice
  replace_rx sci an dev =
      if has_an an (sas_of (find (is_sc sci) (rx_of dev)))
      then apply (with_rx (update_first (is_sc sci) (remove_in an) (rx_of dev)) dev)
      else ok dev

  unfoldable pub install_fresh_rx :
      ℕ → ℕ → KeyId → List ℕ → MacsecDevice → Outcome ErrorKind MacsecDevice
  install_fresh_rx sci an ki sak dev = do
    free ← replace_rx sci an dev
    applied ← apply (
        with_rx
          (update_first (is_sc sci) (push_in (new_sa an true (keyid_bytes ki) sak)) (rx_of free))
          free)
    ok (forget_rx_sa_pn sci an applied)

  unfoldable pub install_rx_sa :
      MacsecDevice → List ℕ → ℕ → KeyId → List ℕ → Outcome ErrorKind MacsecDevice
  install_rx_sa dev peer_sci an ki sak =
      let ready = opened k (sci_be peer_sci) dev in
      if has_key an (keyid_bytes ki) (sas_of (find (is_sc (sci_be peer_sci)) (rx_of ready)))
      then apply ready
      else install_fresh_rx (sci_be peer_sci) an ki sak ready

  -- What an MKA session takes for its device.
  unfoldable pub macsec_ops : DeviceOps MacsecDevice
  macsec_ops = record {
    install_rx_sa = install_rx_sa;
    install_tx_sa = install_tx_sa;
    set_tx_sa_active = set_tx_sa_active;
    remove_rx_sc = remove_rx_sc;
    clear_sas = clear_sas;
  }
