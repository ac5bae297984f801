-- ===== src/Wired/Mka/Session/Updates.antt =====
-- The assignments of `handle_frame` keep the invariant.
use shuli.Base.{
  ℕ, ◌≡◌, refl, Bool, true, false, not, Option, none, some, List, [], ◌∷◌, if◌then◌else◌, is_some,
}
use shuli.Wired.Mka.Types.{KeyId, PeerId, MkaBasic, SakUse, DistSak}
use shuli.Wired.Mka.Session.State.{World, Peer, MkaSession, sak_use_matches}
use shuli.Wired.Mka.Session.Receive.{
  admit_at, touch, make_live, learn, reset_for_collision, received_sak, all_ready, note_ready,
  end_distribution,
}
use shuli.Wired.Mka.Session.Invariant.{IsSession, reset_mi-IsSession}

pub matches-some :
    (lki : Option KeyId) (ki : KeyId) → not (sak_use_matches lki ki) ≡ false → is_some lki ≡ true
unfolding sak_use_matches
matches-some none ki h = cc
matches-some (some lki) ki h = refl

module _ {D : Type 0} where
  pub admit_at-IsSession :
      (idx : Option ℕ) (now : ℕ) (basic : MkaBasic) (s : MkaSession D)
      → IsSession s
      → IsSession (admit_at idx now basic s).1
  unfolding admit_at
  admit_at-IsSession (some idx) now basic s i = i
  admit_at-IsSession none now basic s i = record {
    role = i.role;
    keyed = i.keyed;
    flags = i.flags;
    served = i.served;
  }

  pub touch-IsSession :
      (now : ℕ) (basic : MkaBasic) (idx : ℕ) (peer : Peer) (s : MkaSession D)
      → IsSession s
      → IsSession (touch now basic idx peer s)
  unfolding touch
  touch-IsSession now basic idx peer s i = record {
    role = i.role;
    keyed = i.keyed;
    flags = i.flags;
    served = i.served;
  }

  pub macsec-IsSession :
      (dev : D) (s : MkaSession D) → IsSession s → IsSession (record s { macsec = some dev })
  macsec-IsSession dev s i = record {
    role = i.role;
    keyed = i.keyed;
    flags = i.flags;
    served = i.served;
  }

  pub note_ready-IsSession :
      (sak_use : SakUse) (idx : ℕ) (s : MkaSession D)
      → IsSession s
      → IsSession (note_ready sak_use idx s)
  unfolding note_ready
  note_ready-IsSession sak_use idx s i = record {
    role = i.role;
    keyed = i.keyed;
    flags = i.flags;
    served = i.served;
  }

  -- The SAK is no longer distributed where every live peer has it.
  undistributed-IsSession :
      (done : Bool) (s : MkaSession D)
      → IsSession s
      → IsSession (if done then record s { dist_sak = none } else s)
  undistributed-IsSession true s i = record {
    role = i.role;
    keyed = i.keyed;
    flags = i.flags;
    served = refl;
  }
  undistributed-IsSession false s i = i

  pub end_distribution-IsSession : (s : MkaSession D) → IsSession s → IsSession (end_distribution s)
  unfolding end_distribution
  end_distribution-IsSession s i = undistributed-IsSession (all_ready s) s i

  pub make_live-IsSession :
      (now idx : ℕ) (s : MkaSession D) → IsSession s → IsSession (make_live now idx s)
  unfolding make_live
  make_live-IsSession now idx s i = record {
    role = i.role;
    keyed = i.keyed;
    flags = i.flags;
    served = i.served;
  }

  pub if-IsSession :
      (test : Bool) (s t : MkaSession D)
      → IsSession s
      → IsSession t
      → IsSession (if test then s else t)
  if-IsSession true s t i j = i
  if-IsSession false s t i j = j

  pub learn-IsSession :
      (now : ℕ) (ids : List PeerId) (s : MkaSession D) → IsSession s → IsSession (learn now ids s)
  unfolding learn
  learn-IsSession now [] s i = i
  learn-IsSession now (id ∷ ids) s i = if-IsSession _ _ _ (learn-IsSession now ids s i) (
      learn-IsSession now ids _
        (record { role = i.role; keyed = i.keyed; flags = i.flags; served = i.served }))

  pub reset_for_collision-IsSession :
      (w : World) (s : MkaSession D) → IsSession (reset_for_collision w s)
  unfolding reset_for_collision
  reset_for_collision-IsSession w s =
      let i = reset_mi-IsSession w s in
      record { role = i.role; keyed = i.keyed; flags = i.flags; served = i.served }

  pub received_sak-IsSession :
      (ki : KeyId) (dist : DistSak) (sak : List ℕ) (s : MkaSession D)
      → IsSession s
      → IsSession (received_sak ki dist sak s)
  unfolding received_sak
  received_sak-IsSession ki dist sak s i = record {
    role = i.role;
    keyed = refl;
    flags = refl;
    served = i.served;
  }
