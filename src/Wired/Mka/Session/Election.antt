-- ===== src/Wired/Mka/Session/Election.antt =====
-- `elect_key_server` of wired/mka.rs.
use shuli.Base.{
  ℕ, Bool, true, false, not, Option, none, some, List, [], ◌∷◌, ◌&&◌, ◌||◌, ltb, ◌==◌, bytes_lt,
  if◌then◌else◌, retain,
}
use shuli.Wired.Mka.Types.{no_sci}
use shuli.Wired.Mka.Session.State.{Peer, MkaSession, actor_sci}

-- A candidate for the Key Server: its priority and SCI, and whether it is this participant.
pub record Candidate : Type 0 where
  pub priority : ℕ
  pub sci : List ℕ
  pub own : Bool

-- `(candidate.0, candidate.1) < (current.0, current.1)`
unfoldable pub ranks_before : Candidate → Candidate → Bool
ranks_before a b = ltb a.priority b.priority || (a.priority == b.priority && bytes_lt a.sci b.sci)

abbrev pub peer_candidate : Peer → Candidate
peer_candidate peer = record { priority = peer.priority; sci = peer.sci; own = false }

-- `replace`, and `best = Some(candidate)`.
unfoldable pub better : Option Candidate → Candidate → Option Candidate
better none candidate = some candidate
better (some current) candidate =
    if ranks_before candidate current then some candidate else some current

-- The loop over the live peers that call themselves Key Server.
unfoldable pub best_of : List Peer → Option Candidate → Option Candidate
best_of [] best = best
best_of (peer ∷ peers) best = best_of peers (better best (peer_candidate peer))

module _ {D : Type 0} where
  unfoldable pub own_candidate : MkaSession D → Option Candidate
  own_candidate s =
      if s.can_be_key_server
      then some (record { priority = s.priority; sci = actor_sci s; own = true })
      else none

  unfoldable pub best_candidate : MkaSession D → Option Candidate
  best_candidate s =
      best_of (retain (λ peer. peer.live && peer.key_server) s.peers) (own_candidate s)

  -- The arms of `match best`.
  unfoldable pub follow_best : Option Candidate → MkaSession D → MkaSession D
  follow_best none s = record s {
    need_send = s.need_send || s.is_key_server;
    is_key_server = false;
    key_server_sci = no_sci;
  }
  follow_best (some best) s =
      if best.own
      then record s {
        need_send = s.need_send || not s.is_key_server;
        is_key_server = true;
        key_server_sci = best.sci;
      }
      else record s {
        need_send = s.need_send || s.is_key_server;
        dist_sak = if s.is_key_server then none else s.dist_sak;
        is_key_server = false;
        key_server_sci = best.sci;
      }

  -- `if self.is_key_server != was_key_server`
  unfoldable pub role_changed : Bool → MkaSession D → MkaSession D
  role_changed true s =
      if s.is_key_server
      then s
      else record s { need_send = true; need_new_sak = false; dist_sak = none }
  role_changed false s =
      if s.is_key_server then record s { need_send = true; need_new_sak = true } else s

  unfoldable pub elect_key_server : MkaSession D → MkaSession D
  elect_key_server s = role_changed s.is_key_server (follow_best (best_candidate s) s)
