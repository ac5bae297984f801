-- ===== src/Wired/Mka/Session/Replay.antt =====
-- An MKPDU that comes to a session of wired/mka.rs behind one with its number or a later one.
use shuli.Base.{
  ℕ, ◌≡◌, ◌≤◌, ◌⊎◌, refl, inl, inr, arith, false, Option, none, some, [], le→leb, bytes_eq,
}
use shuli.Base.Outcome.{
  Outcome, ok, err, panic, out_of_fuel, Ensures, Ensures-next, Ensures-if, Ensures-ok,
}
use shuli.Wired.Mka.Types.{MkaPdu, MkaBasic}
use shuli.Wired.Mka.Kdf.{Primitives}
use shuli.Wired.Mka.Session.State.{DeviceOps, World, Peer, MkaSession, find_peer, reset_mi}
use shuli.Wired.Mka.Session.Receive.{admit_at, touch, reset_for_collision}
use shuli.Wired.Mka.Session.Handle.{introduce, handle_peer, handle_pdu}
use shuli.Wired.Mka.Session.Numbers.{last_mn, is_replay-last_mn, last_mn-admitted}
use shuli.Wired.Mka.Session.Remembered.{Remembers}
use shuli.Wired.Mka.Session.RememberedSteps.{introduce-Remembers}

Ensures-weaker :
    {E : Type 0} {A : Type 0} (P Q : A → Type 0) (m : Outcome E A)
    → ((a : A) → P a → Q a)
    → Ensures P m
    → Ensures Q m
Ensures-weaker P Q (ok a) f h = f a h
Ensures-weaker P Q (err e) f h = tt
Ensures-weaker P Q panic f h = tt
Ensures-weaker P Q out_of_fuel f h = tt

module _ {D : Type 0} (ops : DeviceOps D) (c : Primitives) where
  -- The session that an MKPDU leads to: as before, or started anew, or with the MKPDU's number.
  abbrev IsNoted : MkaPdu → MkaSession D → MkaSession D → Type 0
  IsNoted pdu s t =
      (t ≡ s)
      ⊎ ((t.peers ≡ [])
          ⊎ ((bytes_eq pdu.basic.mi t.mi ≡ false)
              × (last_mn pdu.basic.mi t.peers ≡ some pdu.basic.mn)))

  admitted-own :
      (idx : Option ℕ) (now : ℕ) (basic : MkaBasic) (s : MkaSession D)
      → (admit_at idx now basic s).1.mi ≡ s.mi
  unfolding admit_at
  admitted-own none now basic s = refl
  admitted-own (some idx) now basic s = refl

  module _ (w : World) (pdu : MkaPdu) (s : MkaSession D)
      (other : bytes_eq pdu.basic.mi s.mi ≡ false) where
    introduce-IsNoted :
        (idx : ℕ) (t : MkaSession D)
        → Remembers s.mi pdu.basic.mi pdu.basic.mn t
        → Ensures (IsNoted pdu s) (introduce ops c w pdu idx t)
    introduce-IsNoted idx t r =
        Ensures-weaker (Remembers s.mi pdu.basic.mi pdu.basic.mn) (IsNoted pdu s)
          (introduce ops c w pdu idx t) (λ u q. inr (inr (rw q.own other, q.last)))
          (introduce-Remembers ops c w s.mi pdu.basic.mi pdu.basic.mn pdu idx t r)

    reset-IsNoted : (t : MkaSession D) → IsNoted pdu s (reset_for_collision w t)
    unfolding reset_for_collision reset_mi
    reset-IsNoted t = inr (inl refl)

    touched-IsNoted :
        (peer : Peer)
        → Ensures (IsNoted pdu s) (
            introduce ops c w pdu (admit_at (find_peer s pdu.basic.mi) w.now pdu.basic s).0 (
              touch w.now pdu.basic
                (admit_at (find_peer s pdu.basic.mi) w.now pdu.basic s).0
                peer
                (admit_at (find_peer s pdu.basic.mi) w.now pdu.basic s).1))
    unfolding touch
    touched-IsNoted peer = introduce-IsNoted _ _ (record {
      own = admitted-own (find_peer s pdu.basic.mi) w.now pdu.basic s;
      last = last_mn-admitted w.now pdu.basic s;
    })

    handle_peer-IsNoted : Ensures (IsNoted pdu s) (handle_peer ops c w pdu s)
    unfolding handle_peer
    handle_peer-IsNoted =
        let same : IsNoted pdu s s = inl refl in
        search (Ensures-next, Ensures-if, reset-IsNoted, touched-IsNoted) depth 30

  handle_pdu-IsNoted :
      (w : World) (pdu : MkaPdu) (s : MkaSession D)
      → Ensures (IsNoted pdu s) (handle_pdu ops c w pdu s)
  unfolding handle_pdu reset_for_collision reset_mi
  handle_pdu-IsNoted w pdu s =
      let same : IsNoted pdu s s = inl refl in
      let anew : IsNoted pdu s (reset_for_collision w s) = inr (inl refl) in
      search (Ensures-if, handle_peer-IsNoted) depth 20

  noted-again :
      (w : World) (again : MkaPdu) (t : MkaSession D) (n : ℕ)
      → bytes_eq again.basic.mi t.mi ≡ false
      → last_mn again.basic.mi t.peers ≡ some n
      → again.basic.mn ≤ n
      → handle_pdu ops c w again t ≡ ok t
  unfolding handle_pdu handle_peer
  noted-again w again t n other last old =
      let replay = is_replay-last_mn again.basic t last in
      let late = le→leb again.basic.mn n old in ground (arith, replay, late, other)

  -- The session that an MKPDU leads to passes over an MKPDU with the same MI and a number that is
  -- not above the first's, at any time, unless the first left the session as it was, or made it
  -- start anew, without peers.
  pub handle_pdu-again :
      (before after : World) (pdu again : MkaPdu) (s t : MkaSession D)
      → handle_pdu ops c before pdu s ≡ ok t
      → again.basic.mi ≡ pdu.basic.mi
      → again.basic.mn ≤ pdu.basic.mn
      → (t ≡ s) ⊎ ((t.peers ≡ []) ⊎ (handle_pdu ops c after again t ≡ ok t))
  handle_pdu-again before after pdu again s t handled from old =
      elim (Ensures-ok (IsNoted pdu s) (handle_pdu ops c before pdu s)
        (handle_pdu-IsNoted before pdu s) handled) [
          | inl same ↦ inl same
          | inr (inl anew) ↦ inr (inl anew)
          | inr (inr (other, last)) ↦
              inr (inr (noted-again after again t pdu.basic.mn (rw from other) (rw from last) old))
        ]
