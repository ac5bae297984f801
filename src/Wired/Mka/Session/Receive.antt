-- ===== src/Wired/Mka/Session/Receive.antt =====
-- `handle_frame` of wired/mka.rs.
use shuli.Base.{
  ℕ, zero, suc, Bool, true, false, not, Option, none, some, List, [], ◌∷◌, ◌++◌, ◌&&◌, ◌||◌, leb,
  ◌==◌, if◌then◌else◌, length, retain, bytes_eq, all, any, is_some,
}
use shuli.Base.Outcome.{Outcome, ok, panic, ◌>>=◌}
use shuli.Core.Types.{ErrorKind}
use shuli.Wired.Mka.Types.{
  KeyId, PeerId, MkaBasic, SakUse, DistSak, MkaPdu, no_sci, pn_exhaustion,
  macsec_cap_not_implemented,
}
use shuli.Wired.Mka.Kdf.{Primitives}
use shuli.Wired.Mka.Session.State.{
  DeviceOps, World, Peer, MkaSession, sak_use_matches, mn_is_recent, find_peer,
  is_elected_key_server, reset_mi,
}
use shuli.Wired.Mka.Session.Peers.{contains, live_peer_scis}
use shuli.Wired.Mka.Session.Sak.{differs, mark_rx_ready, activate_tx_sa}

-- `EapolFrame` of wired/eap.rs.
pub record EapolFrame : Type 0 where
  pub src : List ℕ
  pub dst : List ℕ
  pub payload : List ℕ

-- `self.peers[idx]`, read and written.
unfoldable pub peer_at : List Peer → ℕ → Outcome ErrorKind Peer
peer_at [] idx = panic
peer_at (peer ∷ peers) zero = ok peer
peer_at (peer ∷ peers) (suc idx) = peer_at peers idx

unfoldable pub update_at : ℕ → (Peer → Peer) → List Peer → List Peer
update_at idx f [] = []
update_at zero f (peer ∷ peers) = f peer ∷ peers
update_at (suc idx) f (peer ∷ peers) = peer ∷ update_at idx f peers

-- The two structs that `handle_frame` pushes: of the sender, and of a peer that it names.
unfoldable pub new_peer : ℕ → MkaBasic → Peer
new_peer now basic = record {
  mi = basic.mi;
  mn = 0;
  sci = basic.sci;
  priority = basic.priority;
  key_server = basic.key_server;
  macsec_desired = basic.macsec_desired;
  macsec_capability = basic.macsec_capability;
  live = false;
  last_seen = now;
  rx_ready = false;
  rx_installed = false;
}

unfoldable pub named_peer : ℕ → PeerId → Peer
named_peer now id = record {
  mi = id.mi;
  mn = id.mn;
  sci = no_sci;
  priority = 255;
  key_server = false;
  macsec_desired = false;
  macsec_capability = macsec_cap_not_implemented;
  live = false;
  last_seen = now;
  rx_ready = false;
  rx_installed = false;
}

-- `changed`, and the assignments to the sender's peer.
unfoldable pub is_changed : MkaBasic → Peer → Bool
is_changed basic peer =
    not (peer.mn == basic.mn)
    || (not (bytes_eq peer.sci basic.sci)
        || (not (peer.priority == basic.priority)
            || (differs peer.key_server basic.key_server
                || (differs peer.macsec_desired basic.macsec_desired
                    || (not (peer.macsec_capability == basic.macsec_capability)
                        || not peer.live)))))

unfoldable pub touched : ℕ → MkaBasic → Peer → Peer
touched now basic peer = record peer {
  mn = basic.mn;
  sci = basic.sci;
  priority = basic.priority;
  key_server = basic.key_server;
  macsec_desired = basic.macsec_desired;
  macsec_capability = basic.macsec_capability;
  last_seen = now;
}

abbrev pub awake : ℕ → Peer → Peer
awake now peer = record peer { live = true; last_seen = now }

-- The SCIs that get an RX SA for a distributed SAK.
unfoldable pub sak_scis : List Peer → List ℕ → List (List ℕ)
sak_scis peers sender_sci =
    if contains (live_peer_scis peers) sender_sci
    then live_peer_scis peers
    else live_peer_scis peers ++ (sender_sci ∷ [])

module _ {D : Type 0} where
  -- `peer_idx`, with the sender pushed where it is new.
  unfoldable pub admit_at : Option ℕ → ℕ → MkaBasic → MkaSession D → ℕ × MkaSession D
  admit_at (some idx) now basic s = (idx, s)
  admit_at none now basic s =
      (length s.peers, record s { peers = s.peers ++ (new_peer now basic ∷ []) })

  -- `!is_new && self.peers[idx].mn >= pdu.basic.mn`
  unfoldable pub is_replay : Option ℕ → MkaBasic → MkaSession D → Outcome ErrorKind Bool
  is_replay none basic s = ok false
  is_replay (some idx) basic s = do peer ← peer_at s.peers idx; ok (leb basic.mn peer.mn)

  unfoldable pub touch : ℕ → MkaBasic → ℕ → Peer → MkaSession D → MkaSession D
  touch now basic idx peer s = record s {
    peers = update_at idx (touched now basic) s.peers;
    need_send = s.need_send || is_changed basic peer;
  }

  unfoldable pub is_collision : MkaPdu → MkaSession D → Bool
  is_collision pdu s =
      any (λ id. bytes_eq id.mi s.mi && leb s.mn id.mn) (pdu.live_peers ++ pdu.potential_peers)

  unfoldable pub knows_us : MkaPdu → MkaSession D → Bool
  knows_us pdu s =
      any (λ id. bytes_eq id.mi s.mi && mn_is_recent s.mn id.mn)
        (pdu.live_peers ++ pdu.potential_peers)

  unfoldable pub make_live : ℕ → ℕ → MkaSession D → MkaSession D
  make_live now idx s = record s {
    peers = update_at idx (awake now) s.peers;
    need_send = true;
    need_new_sak = s.need_new_sak || (s.is_key_server && is_some s.lki);
  }

  -- `for id in &pdu.live_peers`
  unfoldable pub learn : ℕ → List PeerId → MkaSession D → MkaSession D
  learn now [] s = s
  learn now (id ∷ ids) s =
      let known = learn now ids s in
      let pushed =
        learn now ids
          (record s { peers = s.peers ++ (named_peer now id ∷ []); need_send = true }) in
      if bytes_eq id.mi s.mi || is_some (find_peer s id.mi) then known else pushed

  -- `self.peers.iter().filter(|p| p.live).all(|p| p.rx_ready)`
  unfoldable pub all_ready : MkaSession D → Bool
  all_ready s = all (λ peer. peer.rx_ready) (retain (λ peer. peer.live) s.peers)

  unfoldable pub reset_for_collision : World → MkaSession D → MkaSession D
  reset_for_collision w s = record (reset_mi w s) { need_send = true }

  unfoldable pub received_sak : KeyId → DistSak → List ℕ → MkaSession D → MkaSession D
  received_sak ki dist sak s = record s {
    oki = s.lki;
    oan = s.lan;
    otx = s.ltx;
    orx = s.lrx;
    lki = some ki;
    lan = dist.an;
    lrx = true;
    ltx = false;
    sak = some sak;
  }

  unfoldable pub note_ready : SakUse → ℕ → MkaSession D → MkaSession D
  note_ready sak_use idx s = record s {
    peers = update_at idx (mark_rx_ready sak_use.latest_rx) s.peers;
    need_new_sak = s.need_new_sak || leb pn_exhaustion sak_use.latest_llpn;
  }

  -- Every live peer has the SAK.
  unfoldable pub end_distribution : MkaSession D → MkaSession D
  end_distribution s = if all_ready s then record s { dist_sak = none } else s

  module _ (ops : DeviceOps D) (c : Primitives) (w : World) where
    unfoldable pub start_sending : MkaSession D → Outcome ErrorKind (MkaSession D)
    start_sending s = do
      active ← activate_tx_sa ops (record s { ltx = true })
      ok (record active { need_send = true })

    unfoldable pub send_when_ready : MkaSession D → Outcome ErrorKind (MkaSession D)
    send_when_ready s = if all_ready s && not s.ltx then start_sending s else ok s

    -- A SAK Use set of a live peer, at the Key Server.
    unfoldable pub serve_sak_use : SakUse → ℕ → MkaSession D → Outcome ErrorKind (MkaSession D)
    serve_sak_use sak_use idx s = do
      sending ← send_when_ready (note_ready sak_use idx s)
      ok (end_distribution sending)

    unfoldable pub take_sak_use :
        Option SakUse → ℕ → Peer → MkaSession D → Outcome ErrorKind (MkaSession D)
    take_sak_use none idx sender s = ok s
    take_sak_use (some sak_use) idx sender s =
        if not (sak_use_matches s.lki sak_use.latest_ki)
        then ok s
        else if s.is_key_server && sender.live
        then serve_sak_use sak_use idx s
        else if not s.is_key_server
            && (sender.key_server
                && (is_elected_key_server s sender.sci && (sak_use.latest_tx && not s.ltx)))
        then start_sending s
        else ok s
