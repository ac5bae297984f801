-- ===== src/Wired/Mka/Session/Peers.antt =====
-- The peers of `MkaSession` of wired/mka.rs: `live_peer_scis`, `pending_rx_scis`,
-- `ordered_live_peers` and `expire_peers`' test.
use shuli.Base.{
  ℕ, ◌-◌, Bool, not, List, [], ◌∷◌, ◌&&◌, ◌||◌, ltb, map, any, retain, bytes_eq, bytes_lt,
  if◌then◌else◌,
}
use shuli.Wired.Mka.Types.{PeerId, mka_life}
use shuli.Wired.Mka.Session.State.{Peer, has_sci}

-- `scis.contains(sci)`
unfoldable pub contains : List (List ℕ) → List ℕ → Bool
contains scis sci = any (λ other. bytes_eq other sci) scis

unfoldable pub live_peer_scis : List Peer → List (List ℕ)
live_peer_scis peers = map (λ peer. peer.sci) (retain (λ peer. peer.live && has_sci peer) peers)

unfoldable pub pending_rx_scis : List Peer → List (List ℕ)
pending_rx_scis peers =
    map (λ peer. peer.sci)
      (retain (λ peer. peer.live && (has_sci peer && not peer.rx_installed)) peers)

unfoldable pub peer_id : Peer → PeerId
peer_id peer = record { mi = peer.mi; mn = peer.mn }

-- The order of the keys `(Reverse(sci), Reverse(mi))`.
unfoldable pub comes_before : Peer → Peer → Bool
comes_before a b = bytes_lt b.sci a.sci || (bytes_eq a.sci b.sci && bytes_lt b.mi a.mi)

-- The stable sorts `sort_by_key` of both lists, by the test that the keys are in the strict order.
unfoldable pub insert_sorted : (Peer → Peer → Bool) → Peer → List Peer → List Peer
insert_sorted before peer [] = peer ∷ []
insert_sorted before peer (other ∷ peers) =
    let later = other ∷ insert_sorted before peer peers in
    if before other peer then later else peer ∷ other ∷ peers

unfoldable pub sort : (Peer → Peer → Bool) → List Peer → List Peer
sort before [] = []
sort before (peer ∷ peers) = insert_sorted before peer (sort before peers)

unfoldable pub ordered_live_peers : List Peer → List PeerId
ordered_live_peers peers = map peer_id (sort comes_before (retain (λ peer. peer.live) peers))

-- In `send_mkpdu`, by `Reverse(mi)`.
unfoldable pub ordered_potential_peers : List Peer → List PeerId
ordered_potential_peers peers =
    map peer_id (sort (λ a b. bytes_lt b.mi a.mi) (retain (λ peer. not peer.live) peers))

-- `now.duration_since(p.last_seen) < Duration::from_secs(MKA_LIFE_SECS)`
unfoldable pub is_fresh : ℕ → Peer → Bool
is_fresh now peer = ltb (now - peer.last_seen) mka_life
