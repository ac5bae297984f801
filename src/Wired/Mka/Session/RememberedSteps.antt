-- ===== src/Wired/Mka/Session/RememberedSteps.antt =====
-- The steps of `handle_frame` of wired/mka.rs behind the touch of a sender, and what they remember.
use shuli.Base.{ℕ, Option, none, some, List, [], ◌∷◌}
use shuli.Base.Outcome.{
  Outcome, ok, err, panic, out_of_fuel, Ensures, Ensures-next, Ensures-bind, Ensures-if,
}
use shuli.Core.Types.{ErrorKind}
use shuli.Wired.Mka.Types.{KeyId, SakUse, DistSak, MkaPdu}
use shuli.Wired.Mka.Kdf.{Primitives}
use shuli.Wired.Mka.Session.State.{DeviceOps, World, Peer, MkaSession}
use shuli.Wired.Mka.Session.Election.{elect_key_server}
use shuli.Wired.Mka.Session.Sak.{
  install_rx_sas_for_live_peers, activate_device, activate_tx_sa, install_own_sak, distribute_sak,
  ensure_sak, install_pending, install_current,
}
use shuli.Wired.Mka.Session.Receive.{start_sending, send_when_ready, serve_sak_use, take_sak_use}
use shuli.Wired.Mka.Session.Handle.{
  finish, install_received, accept_sak, take_unwrapped, take_dist_sak, conclude, introduce,
}
use shuli.Wired.Mka.Session.Remembered.{
  Remembers, elect_key_server-Remembers, macsec-Remembers, note_ready-Remembers,
  end_distribution-Remembers, make_live-Remembers, if-Remembers, learn-Remembers,
  received_sak-Remembers, new_sak-Remembers, installed_on-Remembers, pending_on-Remembers,
  due-Remembers, sending-Remembers,
}

module _ {D : Type 0} (ops : DeviceOps D) (c : Primitives) (w : World) (mi sender : List ℕ)
    (n : ℕ) where
  activate-Remembers :
      (dev : Option D) (s : MkaSession D)
      → Remembers mi sender n s
      → Ensures (Remembers mi sender n) (activate_device ops dev s)
  unfolding activate_device
  activate-Remembers none s r = r
  activate-Remembers (some dev) s r = search (Ensures-next, macsec-Remembers) depth 10

  start_sending-Remembers :
      (s : MkaSession D)
      → Remembers mi sender n s
      → Ensures (Remembers mi sender n) (start_sending ops c w s)
  unfolding start_sending activate_tx_sa
  start_sending-Remembers s r =
      search
        (
          Ensures-bind (Remembers mi sender n) (Remembers mi sender n),
          activate-Remembers,
          sending-Remembers,
          due-Remembers,
        )
        depth 10

  take_sak_use-Remembers :
      (sak_use : Option SakUse) (idx : ℕ) (from : Peer) (s : MkaSession D)
      → Remembers mi sender n s
      → Ensures (Remembers mi sender n) (take_sak_use ops c w sak_use idx from s)
  unfolding take_sak_use serve_sak_use send_when_ready
  take_sak_use-Remembers none idx from s r = r
  take_sak_use-Remembers (some sak_use) idx from s r =
      search
        (
          Ensures-bind (Remembers mi sender n) (Remembers mi sender n),
          Ensures-if,
          start_sending-Remembers,
          note_ready-Remembers,
          end_distribution-Remembers,
        )
        depth 30

  install_own_sak-Remembers :
      (dev : Option D) (ki : KeyId) (sak : List ℕ) (s : MkaSession D)
      → Remembers mi sender n s
      → Ensures (Remembers mi sender n) (install_own_sak ops dev ki sak s)
  unfolding install_own_sak
  install_own_sak-Remembers none ki sak s r = due-Remembers mi sender n s r
  install_own_sak-Remembers (some dev) ki sak s r =
      search (Ensures-next, installed_on-Remembers) depth 10

  ensure_sak-Remembers :
      (s : MkaSession D)
      → Remembers mi sender n s
      → Ensures (Remembers mi sender n) (ensure_sak ops c w s)
  unfolding ensure_sak distribute_sak
  ensure_sak-Remembers s r =
      search (Ensures-if, Ensures-next, install_own_sak-Remembers, new_sak-Remembers) depth 30

  install_current-Remembers :
      (lki : Option KeyId) (sak : Option (List ℕ)) (dev : Option D) (pending : List (List ℕ))
      (s : MkaSession D)
      → Remembers mi sender n s
      → Ensures (Remembers mi sender n) (install_current ops lki sak dev pending s)
  unfolding install_current install_pending
  install_current-Remembers (some ki) (some sak) (some dev) (sci ∷ scis) s r =
      search (Ensures-next, pending_on-Remembers) depth 10
  install_current-Remembers (some ki) (some sak) (some dev) [] s r = r
  install_current-Remembers (some ki) (some sak) none pending s r = r
  install_current-Remembers (some ki) none dev pending s r = r
  install_current-Remembers none sak dev pending s r = r

  finish-Remembers :
      (s : MkaSession D)
      → Remembers mi sender n s
      → Ensures (Remembers mi sender n) (finish ops c w s)
  unfolding finish install_rx_sas_for_live_peers
  finish-Remembers s r =
      search
        (
          Ensures-bind (Remembers mi sender n) (Remembers mi sender n),
          Ensures-if,
          ensure_sak-Remembers,
          install_current-Remembers,
        )
        depth 20

  install_received-Remembers :
      (dev : Option D) (scis : List (List ℕ)) (ki : KeyId) (sak : List ℕ) (s : MkaSession D)
      → Remembers mi sender n s
      → Ensures (Remembers mi sender n) (install_received ops c w dev scis ki sak s)
  unfolding install_received
  install_received-Remembers none scis ki sak s r = due-Remembers mi sender n s r
  install_received-Remembers (some dev) scis ki sak s r =
      search (Ensures-next, installed_on-Remembers) depth 10

  take_unwrapped-Remembers :
      (unwrapped : Outcome ErrorKind (List ℕ)) (ki : KeyId) (dist : DistSak) (from : Peer)
      (s : MkaSession D)
      → Remembers mi sender n s
      → Ensures (Remembers mi sender n) (take_unwrapped ops c w unwrapped ki dist from s)
  unfolding take_unwrapped accept_sak
  take_unwrapped-Remembers (ok sak) ki dist from s r =
      search
        (
          Ensures-bind (Remembers mi sender n) (Remembers mi sender n),
          Ensures-if,
          install_received-Remembers,
          received_sak-Remembers,
          finish-Remembers,
        )
        depth 20
  take_unwrapped-Remembers (err kind) ki dist from s r = r
  take_unwrapped-Remembers panic ki dist from s r = tt
  take_unwrapped-Remembers out_of_fuel ki dist from s r = tt

  take_dist_sak-Remembers :
      (dist : Option DistSak) (from : Peer) (s : MkaSession D)
      → Remembers mi sender n s
      → Ensures (Remembers mi sender n) (take_dist_sak ops c w dist from s)
  unfolding take_dist_sak
  take_dist_sak-Remembers none from s r = finish-Remembers s r
  take_dist_sak-Remembers (some dist) from s r =
      search (Ensures-if, finish-Remembers, take_unwrapped-Remembers) depth 20

  conclude-Remembers :
      (pdu : MkaPdu) (idx : ℕ) (s : MkaSession D)
      → Remembers mi sender n s
      → Ensures (Remembers mi sender n) (conclude ops c w pdu idx s)
  unfolding conclude
  conclude-Remembers pdu idx s r = Ensures-next (Remembers mi sender n) _ _ λ from.
      Ensures-bind (Remembers mi sender n) (Remembers mi sender n) _ _
        (take_sak_use-Remembers pdu.sak_use idx from (elect_key_server s)
          (elect_key_server-Remembers mi sender n s r))
        (take_dist_sak-Remembers pdu.dist_sak from)

  pub introduce-Remembers :
      (pdu : MkaPdu) (idx : ℕ) (s : MkaSession D)
      → Remembers mi sender n s
      → Ensures (Remembers mi sender n) (introduce ops c w pdu idx s)
  unfolding introduce
  introduce-Remembers pdu idx s r =
      search (Ensures-next, conclude-Remembers, if-Remembers, learn-Remembers, make_live-Remembers)
        depth 20
