-- ===== src/Wired/Mka/Session/Silence.antt =====
-- A participant that hears nobody for the MKA Life Time is not connected.
use shuli.Base.{
  ℕ, ◌≡◌, refl, ◌∙◌, arith, Bool, true, false, not, Option, List, [], ◌∷◌, ◌||◌, ◌==◌, All, length,
  retain, if◌then◌else◌,
}
use shuli.Base.Outcome.{Outcome, ok, Ensures, Ensures-next, Ensures-bind, Ensures-if, Ensures-ok}
use shuli.Core.Types.{ErrorKind}
use shuli.Wired.Mka.Kdf.{Primitives}
use shuli.Wired.Mka.Session.State.{DeviceOps, World, MkaSession, secured, has_live_peer}
use shuli.Wired.Mka.Session.Peers.{is_fresh}
use shuli.Wired.Mka.Session.Election.{elect_key_server}
use shuli.Wired.Mka.Session.Sak.{forget_sak, drop_unsecure_sak, ensure_sak}
use shuli.Wired.Mka.Session.Run.{
  keep_fresh, note_expiry, expire_peers, send_mkpdu, serve, send_when_needed, run_after,
}
use shuli.Wired.Mka.Session.Invariant.{elect_key_server-kept}

retain-none {ℓ} :
    {A : Type ℓ} (p : A → Bool) (xs : List A) → All (λ x. p x ≡ false) xs → retain p xs ≡ []
retain-none p [] h = refl
retain-none p (x ∷ xs) (stale, h) = rw stale (retain-none p xs h)

module _ {D : Type 0} where
  -- The last message of every peer is at least the MKA Life Time old.
  abbrev pub IsSilent : World → MkaSession D → Type 0
  IsSilent w s = All (λ peer. is_fresh w.now peer ≡ false) s.peers

  abbrev pub HasNoPeers : MkaSession D → Type 0
  HasNoPeers s = s.peers ≡ []

  if-HasNoPeers :
      (test : Bool) (s t : MkaSession D)
      → HasNoPeers s
      → HasNoPeers t
      → HasNoPeers (if test then s else t)
  if-HasNoPeers true s t h k = h
  if-HasNoPeers false s t h k = k

  expire_peers-HasNoPeers :
      (w : World) (s : MkaSession D) → IsSilent w s → HasNoPeers (expire_peers w s)
  unfolding expire_peers note_expiry keep_fresh
  expire_peers-HasNoPeers w s silent =
      let gone = retain-none (is_fresh w.now) s.peers silent in
      let (_, _, _, _, _, peers, _) = elect_key_server-kept (note_expiry (keep_fresh w s)) in
      if-HasNoPeers (length (keep_fresh w s).peers == length s.peers) (keep_fresh w s)
        (elect_key_server (note_expiry (keep_fresh w s))) gone (peers ∙ gone)

  pub HasNoPeers-not_live : (s : MkaSession D) → HasNoPeers s → has_live_peer s ≡ false
  unfolding has_live_peer
  HasNoPeers-not_live s h = rw h refl

  pub HasNoPeers-not_secured : (s : MkaSession D) → HasNoPeers s → secured s ≡ false
  unfolding secured
  HasNoPeers-not_secured s h = let dead = HasNoPeers-not_live s h in ground arith

  forget_sak-HasNoPeers :
      (dev : Option D) (s : MkaSession D) → HasNoPeers s → HasNoPeers (forget_sak dev s)
  unfolding forget_sak
  forget_sak-HasNoPeers dev s h = rw h refl

  module _ (ops : DeviceOps D) (create : List ℕ → Bool → Outcome ErrorKind D) (c : Primitives)
      (w : World) where
    drop_unsecure_sak-HasNoPeers :
        (s : MkaSession D) → HasNoPeers s → Ensures HasNoPeers (drop_unsecure_sak ops s)
    unfolding drop_unsecure_sak
    drop_unsecure_sak-HasNoPeers s h =
        search (Ensures-if, Ensures-next, forget_sak-HasNoPeers) depth 10

    ensure_sak-HasNoPeers :
        (s : MkaSession D) → HasNoPeers s → Ensures HasNoPeers (ensure_sak ops c w s)
    unfolding ensure_sak
    ensure_sak-HasNoPeers s h =
        let dead = HasNoPeers-not_live s h in
        Ensures-if HasNoPeers (not s.is_key_server || not (has_live_peer s)) _ _ (λ _. h)
          λ alive. absurd (ground arith)

    -- A step of `run` after which no peer was heard for the MKA Life Time does not report a
    -- connection.
    pub run_after-silent :
        (s t : MkaSession D) → IsSilent w s → run_after ops create c w s ≡ ok t → secured t ≡ false
    unfolding run_after serve send_when_needed send_mkpdu
    run_after-silent s t silent ran = HasNoPeers-not_secured t (
        Ensures-ok HasNoPeers (run_after ops create c w s)
          (search
            (
              Ensures-bind HasNoPeers HasNoPeers,
              Ensures-next,
              Ensures-if,
              drop_unsecure_sak-HasNoPeers,
              expire_peers-HasNoPeers,
              ensure_sak-HasNoPeers,
            )
            depth 20)
          ran)
