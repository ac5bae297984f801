-- ===== src/Wired/Macsec/Settled.antt =====
-- The operations of `MacsecDevice` of wired/macsec.rs, and the configuration that they leave in it.
use shuli.Base.{AllOption, All-append, ℕ, refl, Bool, true, List, [], ◌∷◌, ◌++◌, All, find, is_some}
use shuli.Base.Outcome.{Ensures, Ensures-bind, Ensures-if}
use shuli.Wired.Mka.Types.{KeyId}
use shuli.Wired.Macsec.Device.{
  remove_rx_sc, clear_sas, install_tx_sa, set_tx_sa_active, replace_rx, install_fresh_rx,
  install_rx_sa,
}
use shuli.Wired.Macsec.Lists.{
  Lacks, remove_first-AreSettled, placed-AreSettled, update_first-All, update_first-update_first,
  find-update_first,
}
use shuli.Wired.Macsec.Desired.{
  MacsecRxScConfig, Kernel, MacsecDevice, keyid_bytes, sci_be, or_empty, update_first, is_an, is_sc,
  new_sa, has_key, has_an, rx_of, with_rx, forget_in, forget_rx_sa_pn, ensure_rx_sc, sas_of,
  open_sc, remove_in, push_in, opened, without_sc, activated,
}
use shuli.Wired.Macsec.TxSettled.{
  Documented, IsSettledSc, IsSettled, if-All, AllOption-unit, sas_of-Lacks, keep_others-All,
  activate_in-AreSettled, apply-Ensures, encode_if-IsSettled, apply-next, install_tx_sa-IsSettled,
}

module _ (k : Kernel) where
  -- The receive channel.
  module _ (d : Documented k) where
    ensure_rx_sc-All :
        (sci : ℕ) (scs : List MacsecRxScConfig)
        → All IsSettledSc scs
        → All IsSettledSc (ensure_rx_sc k sci scs)
    unfolding ensure_rx_sc
    ensure_rx_sc-All sci scs h =
        if-All (is_some (find (is_sc sci) scs)) scs (scs ++ (k.new_rx_sc sci ∷ [])) h
          (All-append IsSettledSc scs (k.new_rx_sc sci ∷ []) h (rw (d.sa_list sci) tt, tt))

    opened-IsSettled : (sci : ℕ) (dev : MacsecDevice) → IsSettled dev → IsSettled (opened k sci dev)
    unfolding opened
    opened-IsSettled sci dev h = record {
      tx = h.tx;
      rx =
          update_first-All IsSettledSc (λ _. Unit {0}) (is_sc sci) open_sc
            (ensure_rx_sc k sci (rx_of dev)) (ensure_rx_sc-All sci (rx_of dev) h.rx)
            (AllOption-unit _) (λ sc settled _. settled);
    }

  -- The channel's place for the AN is free.
  abbrev IsFreeRx : ℕ → ℕ → MacsecDevice → Type 0
  IsFreeRx sci an dev =
      AllOption (λ sc. Lacks an (or_empty sc.sa_list)) (find (is_sc sci) (rx_of dev))
      × IsSettled dev

  replace_rx-IsFreeRx :
      (sci an : ℕ) (dev : MacsecDevice)
      → IsSettled dev
      → Ensures (IsFreeRx sci an) (replace_rx k sci an dev)
  unfolding replace_rx has_an
  replace_rx-IsFreeRx sci an dev h =
      Ensures-if (IsFreeRx sci an)
        (is_some (find (is_an an) (sas_of (find (is_sc sci) (rx_of dev))))) _ _
        (λ _. apply-Ensures k (IsFreeRx sci an) _ (
          find-update_first IsSettledSc (λ sc. Lacks an (or_empty sc.sa_list)) (is_sc sci)
              (remove_in an) (rx_of dev) h.rx (λ _. refl)
              (λ sc settled. (remove_first-AreSettled an (or_empty sc.sa_list) settled).1),
          record {
            tx = h.tx;
            rx =
                update_first-All IsSettledSc (λ _. Unit {0}) (is_sc sci) (remove_in an) (rx_of dev)
                  h.rx (AllOption-unit _)
                  (λ sc settled _. (remove_first-AreSettled an (or_empty sc.sa_list) settled).0);
          },
        ))
        (λ absent. (sas_of-Lacks an (find (is_sc sci) (rx_of dev)) absent, h))

  rx-IsSettled :
      (sci an : ℕ) (active : Bool) (key_id sak : List ℕ) (dev : MacsecDevice)
      → IsFreeRx sci an dev
      → IsSettled (
          forget_rx_sa_pn sci an (
            with_rx
              (update_first (is_sc sci) (push_in (new_sa an active key_id sak)) (rx_of dev))
              dev))
  unfolding forget_rx_sa_pn
  rx-IsSettled sci an active key_id sak dev (lacks, h) = record {
    tx = h.tx;
    rx =
        rw
          (update_first-update_first (is_sc sci) (push_in (new_sa an active key_id sak))
            (forget_in an) (rx_of dev) (λ _. refl))
          (update_first-All IsSettledSc (λ sc. Lacks an (or_empty sc.sa_list)) (is_sc sci)
            (λ sc. forget_in an (push_in (new_sa an active key_id sak) sc)) (rx_of dev) h.rx lacks
            λ sc settled free.
              placed-AreSettled an active key_id sak (or_empty sc.sa_list) settled free);
  }

  install_fresh_rx-IsSettled :
      (sci an : ℕ) (ki : KeyId) (sak : List ℕ) (dev : MacsecDevice)
      → IsSettled dev
      → Ensures IsSettled (install_fresh_rx k sci an ki sak dev)
  unfolding install_fresh_rx
  install_fresh_rx-IsSettled sci an ki sak dev h =
      Ensures-bind IsSettled (IsFreeRx sci an) (replace_rx k sci an dev) _
        (replace_rx-IsFreeRx sci an dev h)
        λ free f. apply-next k IsSettled _ _ (rx-IsSettled sci an true (keyid_bytes ki) sak free f)

  -- Each of the operations by which the device installs, activates and removes SAs, where it
  -- succeeds, leaves a configuration in which no SA carries a packet number and the SAs of each
  -- list have different ANs, if both were so before and the crate's new receive channels have no
  -- SAs.
  pub macsec_ops-IsSettled :
      (dev : MacsecDevice) (sci : List ℕ) (an : ℕ) (ki : KeyId) (sak : List ℕ) (active : Bool)
      → Documented k
      → IsSettled dev
      → Ensures IsSettled (install_rx_sa k dev sci an ki sak)
        × Ensures IsSettled (install_tx_sa k dev an ki sak active)
        × Ensures IsSettled (set_tx_sa_active k dev an)
        × Ensures IsSettled (remove_rx_sc k dev sci)
        × Ensures IsSettled (clear_sas k dev)
  unfolding install_rx_sa set_tx_sa_active remove_rx_sc clear_sas without_sc activated
  macsec_ops-IsSettled dev sci an ki sak active d h =
      let ready = opened k (sci_be sci) dev in
      let open_h = opened-IsSettled d (sci_be sci) dev h in
      (
        Ensures-if IsSettled
            (has_key an (keyid_bytes ki) (sas_of (find (is_sc (sci_be sci)) (rx_of ready)))) _ _
            (λ _. apply-Ensures k IsSettled ready open_h)
            (λ _. install_fresh_rx-IsSettled (sci_be sci) an ki sak ready open_h),
        install_tx_sa-IsSettled k dev an ki sak active h,
        apply-next k IsSettled _ _ (
            encode_if-IsSettled k true an _
              (record { tx = activate_in-AreSettled an dev.desired.tx_sa h.tx; rx = h.rx })),
        apply-Ensures k IsSettled _
            (record { tx = h.tx; rx = keep_others-All (sci_be sci) dev.desired.rx_sc h.rx }),
        apply-Ensures k IsSettled _ (record { tx = tt; rx = tt }),
      )
