-- ===== src/Wired/Mka/Session/Steps.antt =====
-- `handle_frame` keeps the invariant.
use shuli.Base.{ℕ, ◌≡◌, arith, true, Option, none, some, List, is_some}
use shuli.Base.Outcome.{
  Outcome, ok, err, panic, out_of_fuel, Ensures, Ensures-next, Ensures-bind, Ensures-if,
}
use shuli.Core.Types.{ErrorKind}
use shuli.Wired.Mka.Types.{KeyId, SakUse, DistSak, MkaPdu}
use shuli.Wired.Mka.Kdf.{Primitives}
use shuli.Wired.Mka.Session.State.{DeviceOps, World, Peer, MkaSession}
use shuli.Wired.Mka.Session.Election.{elect_key_server}
use shuli.Wired.Mka.Session.Sak.{install_rx_sas_for_live_peers, activate_device, activate_tx_sa}
use shuli.Wired.Mka.Session.Receive.{
  EapolFrame, start_sending, note_ready, send_when_ready, serve_sak_use, take_sak_use,
}
use shuli.Wired.Mka.Session.Handle.{
  finish, install_received, accept_sak, take_unwrapped, take_dist_sak, conclude, introduce,
  handle_peer, handle_pdu, handle_parsed, handle_frame,
}
use shuli.Wired.Mka.Session.Invariant.{
  IsSession, elect_key_server-IsSession, installed_on-IsSession, install_current-IsSession,
  ensure_sak-IsSession,
}
use shuli.Wired.Mka.Session.Updates.{
  matches-some, admit_at-IsSession, macsec-IsSession, note_ready-IsSession,
  end_distribution-IsSession, touch-IsSession, make_live-IsSession, if-IsSession, learn-IsSession,
  reset_for_collision-IsSession, received_sak-IsSession,
}

module _ {D : Type 0} where
  module _ (ops : DeviceOps D) (c : Primitives) (w : World) where
    activate-IsSession :
        (dev : Option D) (s : MkaSession D)
        → IsSession s
        → Ensures IsSession (activate_device ops dev s)
    unfolding activate_device
    activate-IsSession none s i = i
    activate-IsSession (some dev) s i = search (Ensures-next, macsec-IsSession) depth 10

    start_sending-IsSession :
        (s : MkaSession D)
        → is_some s.lki ≡ true
        → IsSession s
        → Ensures IsSession (start_sending ops c w s)
    unfolding start_sending activate_tx_sa
    start_sending-IsSession s has i =
        Ensures-bind IsSession IsSession _ _
          (activate-IsSession s.macsec (record s { ltx = true })
            (record { role = i.role; keyed = i.keyed; flags = ground arith; served = i.served }))
          λ active j. record { role = j.role; keyed = j.keyed; flags = j.flags; served = j.served }

    send_when_ready-IsSession :
        (s : MkaSession D)
        → is_some s.lki ≡ true
        → IsSession s
        → Ensures IsSession (send_when_ready ops c w s)
    unfolding send_when_ready
    send_when_ready-IsSession s has i = search (Ensures-if, start_sending-IsSession) depth 10

    serve_sak_use-IsSession :
        (sak_use : SakUse) (idx : ℕ) (s : MkaSession D)
        → is_some s.lki ≡ true
        → IsSession s
        → Ensures IsSession (serve_sak_use ops c w sak_use idx s)
    unfolding serve_sak_use note_ready
    serve_sak_use-IsSession sak_use idx s has i =
        Ensures-bind IsSession IsSession (send_when_ready ops c w (note_ready sak_use idx s)) _
          (send_when_ready-IsSession (note_ready sak_use idx s) has
            (note_ready-IsSession sak_use idx s i))
          end_distribution-IsSession

    take_sak_use-IsSession :
        (sak_use : Option SakUse) (idx : ℕ) (sender : Peer) (s : MkaSession D)
        → IsSession s
        → Ensures IsSession (take_sak_use ops c w sak_use idx sender s)
    unfolding take_sak_use
    take_sak_use-IsSession none idx sender s i = i
    take_sak_use-IsSession (some sak_use) idx sender s i =
        search (Ensures-if, serve_sak_use-IsSession, start_sending-IsSession, matches-some, arith)
          depth 30

    finish-IsSession : (s : MkaSession D) → IsSession s → Ensures IsSession (finish ops c w s)
    unfolding finish install_rx_sas_for_live_peers
    finish-IsSession s i =
        search
          (
            Ensures-bind IsSession IsSession,
            Ensures-if,
            ensure_sak-IsSession,
            install_current-IsSession,
          )
          depth 20

    install_received-IsSession :
        (dev : Option D) (scis : List (List ℕ)) (ki : KeyId) (sak : List ℕ) (s : MkaSession D)
        → IsSession s
        → Ensures IsSession (install_received ops c w dev scis ki sak s)
    unfolding install_received
    install_received-IsSession none scis ki sak s i = record {
      role = i.role;
      keyed = i.keyed;
      flags = i.flags;
      served = i.served;
    }
    install_received-IsSession (some dev) scis ki sak s i =
        search (Ensures-next, installed_on-IsSession) depth 10

    accept_sak-IsSession :
        (ki : KeyId) (dist : DistSak) (sender : Peer) (sak : List ℕ) (s : MkaSession D)
        → IsSession s
        → Ensures IsSession (accept_sak ops c w ki dist sender sak s)
    unfolding accept_sak
    accept_sak-IsSession ki dist sender sak s i =
        search
          (
            Ensures-bind IsSession IsSession,
            install_received-IsSession,
            received_sak-IsSession,
            finish-IsSession,
          )
          depth 20

    take_unwrapped-IsSession :
        (unwrapped : Outcome ErrorKind (List ℕ)) (ki : KeyId) (dist : DistSak) (sender : Peer)
        (s : MkaSession D)
        → IsSession s
        → Ensures IsSession (take_unwrapped ops c w unwrapped ki dist sender s)
    unfolding take_unwrapped
    take_unwrapped-IsSession (ok sak) ki dist sender s i =
        search (Ensures-if, accept_sak-IsSession) depth 10
    take_unwrapped-IsSession (err kind) ki dist sender s i = i
    take_unwrapped-IsSession panic ki dist sender s i = tt
    take_unwrapped-IsSession out_of_fuel ki dist sender s i = tt

    take_dist_sak-IsSession :
        (dist : Option DistSak) (sender : Peer) (s : MkaSession D)
        → IsSession s
        → Ensures IsSession (take_dist_sak ops c w dist sender s)
    unfolding take_dist_sak
    take_dist_sak-IsSession none sender s i = finish-IsSession s i
    take_dist_sak-IsSession (some dist) sender s i =
        search (Ensures-if, finish-IsSession, take_unwrapped-IsSession) depth 20

    conclude-IsSession :
        (pdu : MkaPdu) (idx : ℕ) (s : MkaSession D)
        → IsSession s
        → Ensures IsSession (conclude ops c w pdu idx s)
    unfolding conclude
    conclude-IsSession pdu idx s i = Ensures-next IsSession _ _ λ sender.
        Ensures-bind IsSession IsSession _ _
          (take_sak_use-IsSession pdu.sak_use idx sender (elect_key_server s)
            (elect_key_server-IsSession s i))
          (take_dist_sak-IsSession pdu.dist_sak sender)

    introduce-IsSession :
        (pdu : MkaPdu) (idx : ℕ) (s : MkaSession D)
        → IsSession s
        → Ensures IsSession (introduce ops c w pdu idx s)
    unfolding introduce
    introduce-IsSession pdu idx s i =
        search
          (Ensures-next, conclude-IsSession, if-IsSession, learn-IsSession, make_live-IsSession)
          depth 20

    handle_peer-IsSession :
        (pdu : MkaPdu) (s : MkaSession D)
        → IsSession s
        → Ensures IsSession (handle_peer ops c w pdu s)
    unfolding handle_peer
    handle_peer-IsSession pdu s i =
        search
          (
            Ensures-next, Ensures-if, reset_for_collision-IsSession, introduce-IsSession,
            touch-IsSession, admit_at-IsSession,
          )
          depth 30

    handle_pdu-IsSession :
        (pdu : MkaPdu) (s : MkaSession D)
        → IsSession s
        → Ensures IsSession (handle_pdu ops c w pdu s)
    unfolding handle_pdu
    handle_pdu-IsSession pdu s i =
        search (Ensures-if, reset_for_collision-IsSession, handle_peer-IsSession) depth 20

    handle_parsed-IsSession :
        (parsed : Outcome ErrorKind (Option MkaPdu)) (s : MkaSession D)
        → IsSession s
        → Ensures IsSession (handle_parsed ops c w parsed s)
    unfolding handle_parsed
    handle_parsed-IsSession (ok (some pdu)) s i = handle_pdu-IsSession pdu s i
    handle_parsed-IsSession (ok none) s i = i
    handle_parsed-IsSession (err kind) s i = i
    handle_parsed-IsSession panic s i = tt
    handle_parsed-IsSession out_of_fuel s i = tt

    pub handle_frame-IsSession :
        (frame : EapolFrame) (s : MkaSession D)
        → IsSession s
        → Ensures IsSession (handle_frame ops c w frame s)
    unfolding handle_frame
    handle_frame-IsSession frame s i =
        search (Ensures-if, Ensures-next, handle_parsed-IsSession) depth 20
