-- ===== src/Wired/Macsec/Accepts.antt =====
-- Over a kernel that accepts what it is told, the device takes every SA.
use shuli.Base.{ℕ, ◌≡◌, refl, Bool, true, false, if◌then◌else◌}
use shuli.Base.Outcome.{Outcome, ok, ◌>>=◌}
use shuli.Core.Types.{ErrorKind}
use shuli.Wired.Mka.Session.Distribution.{CanInstall}
use shuli.Wired.Macsec.Device.{
  apply, encode_if, refresh_tx, replace_tx, install_tx_sa, replace_rx, install_fresh_rx,
  install_rx_sa, macsec_ops,
}
use shuli.Wired.Macsec.Desired.{Kernel, NlMacsecConfig, MacsecDevice}

pub record Accepts (k : Kernel) : Type 0 where
  pub applies : (desired : NlMacsecConfig) → k.apply desired ≡ ok tt
  pub encodes : (an : ℕ) → k.set_encoding_sa an ≡ ok tt

-- The routine gives a device.
abbrev Gives : Outcome ErrorKind MacsecDevice → Type 0
Gives m = (dev : MacsecDevice) × (m ≡ ok dev)

if-Gives :
    (test : Bool) (m n : Outcome ErrorKind MacsecDevice)
    → Gives m
    → Gives n
    → Gives (if test then m else n)
if-Gives true m n h g = h
if-Gives false m n h g = g

bind-Gives :
    (m : Outcome ErrorKind MacsecDevice) (f : MacsecDevice → Outcome ErrorKind MacsecDevice)
    → Gives m
    → ((dev : MacsecDevice) → Gives (f dev))
    → Gives (m >>= f)
bind-Gives m f (dev, e) h = rw e (h dev)

module _ (k : Kernel) (accepts : Accepts k) where
  apply-Gives : (dev : MacsecDevice) → Gives (apply k dev)
  unfolding apply
  apply-Gives dev = (dev, rw (accepts.applies dev.desired) refl)

  encode_if-Gives :
      (active : Bool) (an : ℕ) (dev : MacsecDevice) → Gives (encode_if k active an dev)
  unfolding encode_if
  encode_if-Gives true an dev = (dev, rw (accepts.encodes an) refl)
  encode_if-Gives false an dev = (dev, refl)

  ok-Gives : (dev : MacsecDevice) → Gives (ok dev)
  ok-Gives dev = (dev, refl)

  -- Every SA is installed, for reception and for transmission.
  pub macsec_ops-CanInstall : CanInstall (macsec_ops k)
  unfolding macsec_ops install_rx_sa install_tx_sa install_fresh_rx refresh_tx replace_tx replace_rx
  macsec_ops-CanInstall = record {
    rx = λ dev sci an ki sak.
        search (if-Gives, bind-Gives, apply-Gives, encode_if-Gives, ok-Gives) depth 20;
    tx = λ dev an ki sak active.
        search (if-Gives, bind-Gives, apply-Gives, encode_if-Gives, ok-Gives) depth 20;
  }
