-- ===== src/Wired/Mka/Session/Handle.antt =====
-- `handle_frame` of wired/mka.rs from the Distributed SAK on, and the whole of it.
use shuli.Base.{
  ℕ, ◌%◌, Bool, true, false, not, Option, none, some, List, ◌&&◌, ◌||◌, ltb, ◌==◌, if◌then◌else◌,
  length, bytes_eq,
}
use shuli.Base.Outcome.{Outcome, ok, err, panic, out_of_fuel, ◌>>=◌}
use shuli.Base.Bytes.{byte}
use shuli.Core.Types.{ErrorKind}
use shuli.Wired.Mka.Types.{
  KeyId, DistSak, MkaPdu, mka_version, eapol_type_mka, algo_agility, pae_group_addr,
}
use shuli.Wired.Mka.Kdf.{Primitives, unwrap_key}
use shuli.Wired.Mka.Pdu.Frame.{parse}
use shuli.Wired.Mka.Session.State.{
  DeviceOps, World, Peer, MkaSession, sak_use_matches, find_peer, is_elected_key_server,
}
use shuli.Wired.Mka.Session.Election.{elect_key_server}
use shuli.Wired.Mka.Session.Sak.{
  dist_sak_supported, installed_on, install_rx_sas, ensure_sak, install_rx_sas_for_live_peers,
}
use shuli.Wired.Mka.Session.Receive.{
  EapolFrame, peer_at, sak_scis, admit_at, is_replay, touch, is_collision, knows_us, make_live,
  learn, reset_for_collision, received_sak, take_sak_use,
}

module _ {D : Type 0} (ops : DeviceOps D) (c : Primitives) (w : World) where
  -- The end of the handler.
  unfoldable pub finish : MkaSession D → Outcome ErrorKind (MkaSession D)
  finish s = do
    served ← if s.is_key_server then ensure_sak ops c w s else ok s
    install_rx_sas_for_live_peers ops served

  -- `if let Some(dev)`: an RX SA for each SCI, then the TX SA.
  unfoldable pub install_received :
      Option D → List (List ℕ) → KeyId → List ℕ → MkaSession D → Outcome ErrorKind (MkaSession D)
  install_received none scis ki sak s = ok (record s { need_send = true })
  install_received (some dev) scis ki sak s = do
    receiving ← install_rx_sas ops scis s.lan ki sak dev
    both ← ops.install_tx_sa receiving s.lan ki sak false
    ok (installed_on both scis s)

  unfoldable pub accept_sak :
      KeyId → DistSak → Peer → List ℕ → MkaSession D → Outcome ErrorKind (MkaSession D)
  accept_sak ki dist sender sak s = do
    installed ←
        install_received s.macsec (sak_scis s.peers sender.sci) ki sak (received_sak ki dist sak s)
    finish installed

  -- `match unwrap_key(..)`, and the test of the SAK's length.
  unfoldable pub take_unwrapped :
      Outcome ErrorKind (List ℕ)
      → KeyId
      → DistSak
      → Peer
      → MkaSession D
      → Outcome ErrorKind (MkaSession D)
  take_unwrapped (ok sak) ki dist sender s =
      if length sak == 16 then accept_sak ki dist sender sak s else ok s
  take_unwrapped (err kind) ki dist sender s = ok s
  take_unwrapped panic ki dist sender s = panic
  take_unwrapped out_of_fuel ki dist sender s = out_of_fuel

  -- The guards of the Distributed SAK, but for its contents.
  unfoldable pub is_wanted : DistSak → Peer → MkaSession D → Bool
  is_wanted dist sender s =
      sender.live
      && (sender.key_server
          && (is_elected_key_server s sender.sci
              && (not s.is_key_server && not (length dist.wrapped_sak == 0))))

  unfoldable pub take_dist_sak :
      Option DistSak → Peer → MkaSession D → Outcome ErrorKind (MkaSession D)
  take_dist_sak none sender s = finish s
  take_dist_sak (some dist) sender s =
      if not (is_wanted dist sender s)
      then finish s
      else if not (dist_sak_supported s.encrypt dist)
      then ok s
      else if sak_use_matches s.lki (record { mi = sender.mi; kn = dist.kn })
      then finish s
      else take_unwrapped (unwrap_key c s.kek dist.wrapped_sak)
          (record { mi = sender.mi; kn = dist.kn }) dist sender s

  -- From the election on, with the sender as it is before it.
  unfoldable pub conclude : MkaPdu → ℕ → MkaSession D → Outcome ErrorKind (MkaSession D)
  conclude pdu idx s = do
    sender ← peer_at s.peers idx
    used ← take_sak_use ops c w pdu.sak_use idx sender (elect_key_server s)
    take_dist_sak pdu.dist_sak sender used

  -- The sender becomes live, and names its live peers.
  unfoldable pub introduce : MkaPdu → ℕ → MkaSession D → Outcome ErrorKind (MkaSession D)
  introduce pdu idx s = do
    before ← peer_at s.peers idx
    let awake = if knows_us pdu s && not before.live then make_live w.now idx s else s
    after ← peer_at awake.peers idx
    conclude pdu idx (if after.live then learn w.now pdu.live_peers awake else awake)

  -- The MKPDU of a peer, from the search for it on.
  unfoldable pub handle_peer : MkaPdu → MkaSession D → Outcome ErrorKind (MkaSession D)
  handle_peer pdu s = do
    replay ← is_replay (find_peer s pdu.basic.mi) pdu.basic s
    if replay then ok s else do
      let (idx, admitted) = admit_at (find_peer s pdu.basic.mi) w.now pdu.basic s
      peer ← peer_at admitted.peers idx
      let touched = touch w.now pdu.basic idx peer admitted
      if is_collision pdu touched
          then ok (reset_for_collision w touched)
          else introduce pdu idx touched

  -- The guards on an authentic MKPDU.
  unfoldable pub handle_pdu : MkaPdu → MkaSession D → Outcome ErrorKind (MkaSession D)
  handle_pdu pdu s =
      if not (bytes_eq pdu.basic.ckn s.ckn)
      then ok s
      else if bytes_eq pdu.basic.mi s.mi
      then ok (reset_for_collision w s)
      else if ltb mka_version pdu.basic.version
      then ok s
      else if not (bytes_eq pdu.basic.algo_agility algo_agility)
      then ok s
      else handle_peer pdu s

  -- `match MkaPdu::parse(..)`, which passes over an invalid MKPDU.
  unfoldable pub handle_parsed :
      Outcome ErrorKind (Option MkaPdu) → MkaSession D → Outcome ErrorKind (MkaSession D)
  handle_parsed (ok (some pdu)) s = handle_pdu pdu s
  handle_parsed (ok none) s = ok s
  handle_parsed (err kind) s = ok s
  handle_parsed panic s = panic
  handle_parsed out_of_fuel s = out_of_fuel

  -- The guards on the frame. A source address with the lowest bit of its first octet is a group.
  unfoldable pub handle_frame : EapolFrame → MkaSession D → Outcome ErrorKind (MkaSession D)
  handle_frame frame s =
      let typed = (do
        kind ← byte frame.payload 1
        group ← byte frame.src 0
        if not (kind == eapol_type_mka)
            then ok s
            else if not (bytes_eq frame.dst pae_group_addr) || group % 2 == 1
            then ok s
            else if bytes_eq frame.src s.mac
            then ok s
            else handle_parsed (parse c frame.payload frame.dst frame.src s.ick) s) in
      if ltb (length frame.payload) 4 then ok s else typed
