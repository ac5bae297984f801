-- ===== src/Runs/Macsec.antt =====
-- The device of wired/macsec.rs at concrete inputs.
use shuli.Base.{refl, true, none, some, [], ◌∷◌, replicate}
use shuli.Base.Outcome.{Ensures}
use shuli.Wired.Macsec.Device.{
  install_tx_sa, install_rx_sa, set_tx_sa_active, remove_rx_sc, clear_sas,
}
use shuli.Wired.Macsec.Settled.{macsec_ops-IsSettled}
use shuli.Runs.MkaEnds.{quiet_kernel, mi_a}
use shuli.Wired.Macsec.Desired.{MacsecDevice}
use shuli.Wired.Macsec.TxSettled.{Documented, IsSettled}

quiet_kernel-Documented : Documented quiet_kernel
quiet_kernel-Documented = record { sci = λ n. refl; sa_list = λ n. refl }

-- A device with one SA for each direction.
abbrev one_sa : MacsecDevice
one_sa = record {
  desired = record {
    tx_sa = some (
        record {
          an = 1;
          pn = none;
          active = some true;
          key_id = 7 ∷ [];
          key = some (replicate 16 8);
        }
        ∷ []);
    rx_sc = some (
        record {
          sci = 257;
          active = some true;
          sa_list = some (
              record {
                an = 1;
                pn = none;
                active = some true;
                key_id = 7 ∷ [];
                key = some (replicate 16 8);
              }
              ∷ []);
        }
        ∷ []);
  };
}

one_sa-IsSettled : IsSettled one_sa
one_sa-IsSettled = record { tx = (refl, tt, tt); rx = ((refl, tt, tt), tt) }

macsec_ops-IsSettled_example :
    Ensures IsSettled (
      install_rx_sa quiet_kernel one_sa
        (0 ∷ 0 ∷ 0 ∷ 0 ∷ 0 ∷ 0 ∷ 1 ∷ 1 ∷ [])
        1
        (record { mi = mi_a; kn = 2 })
        (replicate 16 9))
    × Ensures IsSettled
        (install_tx_sa quiet_kernel one_sa 1 (record { mi = mi_a; kn = 2 }) (replicate 16 9) true)
    × Ensures IsSettled (set_tx_sa_active quiet_kernel one_sa 1)
    × Ensures IsSettled (remove_rx_sc quiet_kernel one_sa (0 ∷ 0 ∷ 0 ∷ 0 ∷ 0 ∷ 0 ∷ 1 ∷ 1 ∷ []))
    × Ensures IsSettled (clear_sas quiet_kernel one_sa)
macsec_ops-IsSettled_example =
    macsec_ops-IsSettled quiet_kernel one_sa (0 ∷ 0 ∷ 0 ∷ 0 ∷ 0 ∷ 0 ∷ 1 ∷ 1 ∷ []) 1
      (record { mi = mi_a; kn = 2 }) (replicate 16 9) true quiet_kernel-Documented one_sa-IsSettled
