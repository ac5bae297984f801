-- ===== src/Wired/Mka/Session/Invariant.antt =====
-- What every session keeps: its role is one it may have, its SAK comes with a key identifier, and
-- only a Key Server distributes a SAK.
use shuli.Base.{
  ℕ, ◌≡◌, refl, arith, true, false, not, Option, none, some, List, [], ◌∷◌, ◌&&◌, ◌||◌, Bool-cases,
  inl, inr, is_some,
}
use shuli.Base.Outcome.{Ensures, Ensures-next, Ensures-if}
use shuli.Wired.Mka.Types.{KeyId}
use shuli.Wired.Mka.Kdf.{Primitives}
use shuli.Wired.Mka.Session.State.{DeviceOps, World, MkaSession, reset_mi}
use shuli.Wired.Mka.Session.Election.{
  Candidate, best_candidate, follow_best, role_changed, elect_key_server,
}
use shuli.Wired.Mka.Session.Agreement.{elect_key_server-own}
use shuli.Wired.Mka.Session.Sak.{
  new_sak, installed_on, pending_on, install_own_sak, distribute_sak, ensure_sak, install_pending,
  install_current, forget_sak, drop_unsecure_sak,
}

pub record IsSession {D : Type 0} (s : MkaSession D) : Type 0 where
  pub role : s.is_key_server && not s.can_be_key_server ≡ false
  pub keyed : is_some s.lki ≡ is_some s.sak
  pub flags : (s.ltx || s.lrx) && not (is_some s.lki) ≡ false
  pub served : is_some s.dist_sak && not s.is_key_server ≡ false

module _ {D : Type 0} where
  pub reset_mi-IsSession : (w : World) (s : MkaSession D) → IsSession (reset_mi w s)
  unfolding reset_mi
  reset_mi-IsSession w s = record { role = ground arith; keyed = refl; flags = refl; served = refl }

  -- The election touches the role, the flag of a new SAK and the distributed SAK only.
  pub elect_key_server-kept :
      (s : MkaSession D)
      → ((elect_key_server s).can_be_key_server ≡ s.can_be_key_server)
        × ((elect_key_server s).lki ≡ s.lki)
        × ((elect_key_server s).sak ≡ s.sak)
        × ((elect_key_server s).ltx ≡ s.ltx)
        × ((elect_key_server s).lrx ≡ s.lrx)
        × ((elect_key_server s).peers ≡ s.peers)
        × ((elect_key_server s).mi ≡ s.mi)
  unfolding elect_key_server role_changed follow_best
  elect_key_server-kept s = ground arith

  -- Nor does it change who the participant is.
  pub elect_key_server-station :
      (s : MkaSession D)
      → ((elect_key_server s).mac ≡ s.mac)
        × ((elect_key_server s).ick ≡ s.ick)
        × ((elect_key_server s).ckn ≡ s.ckn)
  unfolding elect_key_server role_changed follow_best
  elect_key_server-station s = ground arith

  elected-served :
      (best : Option Candidate) (s : MkaSession D)
      → is_some s.dist_sak && not s.is_key_server ≡ false
      → is_some (role_changed s.is_key_server (follow_best best s)).dist_sak
          && not (role_changed s.is_key_server (follow_best best s)).is_key_server
        ≡ false
  unfolding role_changed follow_best
  elected-served best s served = ground arith

  elected-served-of :
      (s : MkaSession D)
      → is_some s.dist_sak && not s.is_key_server ≡ false
      → is_some (elect_key_server s).dist_sak && not (elect_key_server s).is_key_server ≡ false
  unfolding elect_key_server
  elected-served-of s served = elected-served (best_candidate s) s served

  pub elect_key_server-IsSession : (s : MkaSession D) → IsSession s → IsSession (elect_key_server s)
  elect_key_server-IsSession s i =
      let (can, lki, sak, ltx, lrx, _, _) = elect_key_server-kept s in
      record {
        role = elim (Bool-cases (elect_key_server s).is_key_server) [
          | inl serves ↦
              let (may, _) = elect_key_server-own s serves in rw (can, may) (ground arith)
          | inr not_server ↦ rw not_server refl
        ];
        keyed = rw (lki, sak) i.keyed;
        flags = rw (lki, ltx, lrx) i.flags;
        served = elected-served-of s i.served;
      }

  pub installed_on-IsSession :
      (dev : D) (scis : List (List ℕ)) (s : MkaSession D)
      → IsSession s
      → IsSession (installed_on dev scis s)
  unfolding installed_on
  installed_on-IsSession dev scis s i = record {
    role = i.role;
    keyed = i.keyed;
    flags = i.flags;
    served = i.served;
  }

  pending_on-IsSession :
      (dev : D) (scis : List (List ℕ)) (s : MkaSession D)
      → IsSession s
      → IsSession (pending_on dev scis s)
  unfolding pending_on
  pending_on-IsSession dev scis s i = record {
    role = i.role;
    keyed = i.keyed;
    flags = i.flags;
    served = i.served;
  }

  forget_sak-IsSession :
      (dev : Option D) (s : MkaSession D) → IsSession s → IsSession (forget_sak dev s)
  unfolding forget_sak
  forget_sak-IsSession dev s i = record { role = i.role; keyed = refl; flags = refl; served = refl }

  new_sak-IsSession :
      (w : World) (sak wrapped : List ℕ) (s : MkaSession D)
      → s.is_key_server ≡ true
      → IsSession s
      → IsSession (new_sak w sak wrapped s)
  unfolding new_sak
  new_sak-IsSession w sak wrapped s serves i = record {
    role = i.role;
    keyed = refl;
    flags = refl;
    served = ground arith;
  }

  module _ (ops : DeviceOps D) where
    install_own_sak-IsSession :
        (dev : Option D) (ki : KeyId) (sak : List ℕ) (s : MkaSession D)
        → IsSession s
        → Ensures IsSession (install_own_sak ops dev ki sak s)
    unfolding install_own_sak
    install_own_sak-IsSession none ki sak s i = record {
      role = i.role;
      keyed = i.keyed;
      flags = i.flags;
      served = i.served;
    }
    install_own_sak-IsSession (some dev) ki sak s i =
        search (Ensures-next, installed_on-IsSession) depth 10

    pub ensure_sak-IsSession :
        (c : Primitives) (w : World) (s : MkaSession D)
        → IsSession s
        → Ensures IsSession (ensure_sak ops c w s)
    unfolding ensure_sak distribute_sak
    ensure_sak-IsSession c w s i =
        search (Ensures-if, Ensures-next, install_own_sak-IsSession, new_sak-IsSession, arith) depth
          30

    pub install_current-IsSession :
        (lki : Option KeyId) (sak : Option (List ℕ)) (dev : Option D) (pending : List (List ℕ))
        (s : MkaSession D)
        → IsSession s
        → Ensures IsSession (install_current ops lki sak dev pending s)
    unfolding install_current install_pending
    install_current-IsSession (some ki) (some sak) (some dev) (sci ∷ scis) s i =
        search (Ensures-next, pending_on-IsSession) depth 10
    install_current-IsSession (some ki) (some sak) (some dev) [] s i = i
    install_current-IsSession (some ki) (some sak) none pending s i = i
    install_current-IsSession (some ki) none dev pending s i = i
    install_current-IsSession none sak dev pending s i = i

    pub drop_unsecure_sak-IsSession :
        (s : MkaSession D) → IsSession s → Ensures IsSession (drop_unsecure_sak ops s)
    unfolding drop_unsecure_sak
    drop_unsecure_sak-IsSession s i =
        search (Ensures-if, Ensures-next, forget_sak-IsSession) depth 30
