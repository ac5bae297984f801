-- ===== src/Wired/Mka/Session/Remembered.antt =====
-- What a session of wired/mka.rs remembers of a sender, and the assignments that do not touch it.
use shuli.Base.{
  ℕ, ◌≡◌, refl, ◌∙◌, Bool, true, false, none, some, List, [], ◌∷◌, ◌&&◌, if◌then◌else◌,
}
use shuli.Wired.Mka.Types.{KeyId, PeerId, SakUse, DistSak}
use shuli.Wired.Mka.Session.State.{World, Peer, MkaSession}
use shuli.Wired.Mka.Session.Peers.{contains}
use shuli.Wired.Mka.Session.Election.{elect_key_server}
use shuli.Wired.Mka.Session.Sak.{
  mark_rx_ready, unready, mark_installed, new_sak, installed_on, pending_on,
}
use shuli.Wired.Mka.Session.Receive.{
  awake, named_peer, make_live, learn, received_sak, all_ready, note_ready, end_distribution,
}
use shuli.Wired.Mka.Session.Invariant.{elect_key_server-kept}
use shuli.Wired.Mka.Session.Numbers.{last_mn, last_mn-map, last_mn-update_at, last_mn-append}

installed-Numbers :
    (test : Bool) (peer : Peer)
    → ((if test then record peer { rx_installed = true } else peer).mi ≡ peer.mi)
      × ((if test then record peer { rx_installed = true } else peer).mn ≡ peer.mn)
installed-Numbers true peer = (refl, refl)
installed-Numbers false peer = (refl, refl)

-- A session with an MI that keeps a number of a sender's.
pub record Remembers {D : Type 0} (mi sender : List ℕ) (n : ℕ) (s : MkaSession D) : Type 0 where
  pub own : s.mi ≡ mi
  pub last : last_mn sender s.peers ≡ some n

module _ {D : Type 0} (mi sender : List ℕ) (n : ℕ) where
  pub elect_key_server-Remembers :
      (s : MkaSession D) → Remembers mi sender n s → Remembers mi sender n (elect_key_server s)
  elect_key_server-Remembers s r =
      let (_, _, _, _, _, peers, own) = elect_key_server-kept s in
      record { own = own ∙ r.own; last = rw peers r.last }

  pub macsec-Remembers :
      (dev : D) (s : MkaSession D)
      → Remembers mi sender n s
      → Remembers mi sender n (record s { macsec = some dev })
  macsec-Remembers dev s r = record { own = r.own; last = r.last }

  pub note_ready-Remembers :
      (sak_use : SakUse) (idx : ℕ) (s : MkaSession D)
      → Remembers mi sender n s
      → Remembers mi sender n (note_ready sak_use idx s)
  unfolding note_ready
  note_ready-Remembers sak_use idx s r = record {
    own = r.own;
    last =
        last_mn-update_at (mark_rx_ready sak_use.latest_rx) (λ peer. (refl, refl)) sender idx
          s.peers
        ∙ r.last;
  }

  undistributed-Remembers :
      (done : Bool) (s : MkaSession D)
      → Remembers mi sender n s
      → Remembers mi sender n (if done then record s { dist_sak = none } else s)
  undistributed-Remembers true s r = record { own = r.own; last = r.last }
  undistributed-Remembers false s r = r

  pub end_distribution-Remembers :
      (s : MkaSession D) → Remembers mi sender n s → Remembers mi sender n (end_distribution s)
  unfolding end_distribution
  end_distribution-Remembers s r = undistributed-Remembers (all_ready s) s r

  pub make_live-Remembers :
      (now idx : ℕ) (s : MkaSession D)
      → Remembers mi sender n s
      → Remembers mi sender n (make_live now idx s)
  unfolding make_live
  make_live-Remembers now idx s r = record {
    own = r.own;
    last = last_mn-update_at (awake now) (λ peer. (refl, refl)) sender idx s.peers ∙ r.last;
  }

  pub if-Remembers :
      (test : Bool) (s t : MkaSession D)
      → Remembers mi sender n s
      → Remembers mi sender n t
      → Remembers mi sender n (if test then s else t)
  if-Remembers true s t r q = r
  if-Remembers false s t r q = q

  pub learn-Remembers :
      (now : ℕ) (ids : List PeerId) (s : MkaSession D)
      → Remembers mi sender n s
      → Remembers mi sender n (learn now ids s)
  unfolding learn
  learn-Remembers now [] s r = r
  learn-Remembers now (id ∷ ids) s r = if-Remembers _ _ _ (learn-Remembers now ids s r) (
      learn-Remembers now ids _ (record {
        own = r.own;
        last = last_mn-append sender s.peers (named_peer now id ∷ []) r.last;
      }))

  pub received_sak-Remembers :
      (ki : KeyId) (dist : DistSak) (sak : List ℕ) (s : MkaSession D)
      → Remembers mi sender n s
      → Remembers mi sender n (received_sak ki dist sak s)
  unfolding received_sak
  received_sak-Remembers ki dist sak s r = record { own = r.own; last = r.last }

  pub new_sak-Remembers :
      (w : World) (sak wrapped : List ℕ) (s : MkaSession D)
      → Remembers mi sender n s
      → Remembers mi sender n (new_sak w sak wrapped s)
  unfolding new_sak
  new_sak-Remembers w sak wrapped s r = record {
    own = r.own;
    last = last_mn-map unready (λ peer. (refl, refl)) sender s.peers ∙ r.last;
  }

  pub installed_on-Remembers :
      (dev : D) (scis : List (List ℕ)) (s : MkaSession D)
      → Remembers mi sender n s
      → Remembers mi sender n (installed_on dev scis s)
  unfolding installed_on mark_installed
  installed_on-Remembers dev scis s r = record {
    own = r.own;
    last =
        last_mn-map _ (λ peer. installed-Numbers (peer.live && contains scis peer.sci) peer) sender
          s.peers
        ∙ r.last;
  }

  pub pending_on-Remembers :
      (dev : D) (pending : List (List ℕ)) (s : MkaSession D)
      → Remembers mi sender n s
      → Remembers mi sender n (pending_on dev pending s)
  unfolding pending_on
  pending_on-Remembers dev pending s r = record {
    own = r.own;
    last =
        last_mn-map _ (λ peer. installed-Numbers (contains pending peer.sci) peer) sender s.peers
        ∙ r.last;
  }

  pub due-Remembers :
      (s : MkaSession D)
      → Remembers mi sender n s
      → Remembers mi sender n (record s { need_send = true })
  due-Remembers s r = record { own = r.own; last = r.last }

  pub sending-Remembers :
      (s : MkaSession D) → Remembers mi sender n s → Remembers mi sender n (record s { ltx = true })
  sending-Remembers s r = record { own = r.own; last = r.last }
