-- ===== src/Wired/Mka/Session/Alone.antt =====
-- Sessions of wired/mka.rs that no other member of the connectivity association speaks to.
use shuli.Base.{ℕ, ◌≡◌, refl, ◌∙◌, Bool, false, Option, none, some, List, inl, inr}
use shuli.Base.Outcome.{Outcome, ok, Ensures, Ensures-next, Ensures-ok, >>=-eq-ok}
use shuli.Core.Types.{ErrorKind}
use shuli.Wired.Mka.Types.{MacsecConfig}
use shuli.Wired.Mka.Kdf.{Primitives, Documented}
use shuli.Wired.Mka.Session.State.{DeviceOps, World, MkaSession, secured}
use shuli.Wired.Mka.Session.Election.{elect_key_server}
use shuli.Wired.Mka.Session.Receive.{EapolFrame}
use shuli.Wired.Mka.Session.Run.{fresh_session, new, run_before, receive, run_after, run}
use shuli.Wired.Mka.Session.Invariant.{elect_key_server-kept}
use shuli.Wired.Mka.Session.Silence.{HasNoPeers, HasNoPeers-not_secured}
use shuli.Wired.Mka.Session.Received.{IsAuthentic, handle_frame-IsAuthentic}
use shuli.Wired.Mka.Session.AloneSteps.{IsAlone, run_before-IsAlone, run_after-IsAlone}

elected-HasNoPeers :
    {D : Type 0} (s : MkaSession D) → HasNoPeers s → HasNoPeers (elect_key_server s)
elected-HasNoPeers s h = let (_, _, _, _, _, peers, _) = elect_key_server-kept s in peers ∙ h

new-HasNoPeers :
    (D : Type 0) (c : Primitives) (w : World) (config : MacsecConfig) (mac : List ℕ)
    → Ensures (HasNoPeers {D = D}) (new c w config mac)
unfolding new fresh_session
new-HasNoPeers D c w config mac = search (Ensures-next, elected-HasNoPeers) depth 20

-- What may come to a participant that has no other: no frame, or one without a tag of its ICK.
abbrev pub IsUnauthentic : Primitives → List ℕ → List ℕ → Option EapolFrame → Type 0
IsUnauthentic c mac ick none = Unit {0}
IsUnauthentic c mac ick (some frame) = ¬ IsAuthentic c mac ick frame

module _ {D : Type 0} (ops : DeviceOps D) (create : List ℕ → Bool → Outcome ErrorKind D)
    (c : Primitives) where
  -- The sessions that `new` gives, and that runs without an authentic frame lead to.
  pub data IsUnheard : MkaSession D → Type 0 where
    begins :
        (w : World) (config : MacsecConfig) (mac : List ℕ) {s : MkaSession D}
        → new c w config mac ≡ ok s
        → IsUnheard s
    goes_on :
        (before after : World) (frame : Option EapolFrame) {s t : MkaSession D} (connected : Bool)
        → IsUnheard s
        → IsUnauthentic c s.mac s.ick frame
        → run ops create c before after frame s ≡ ok (t, connected)
        → IsUnheard t

  module _ (d : Documented c) where
    receive-IsAlone :
        (w : World) (frame : Option EapolFrame) (mac ick : List ℕ) (s : MkaSession D)
        → IsUnauthentic c mac ick frame
        → IsAlone mac ick s
        → (t : MkaSession D) → receive ops create c w frame s ≡ ok t
        → IsAlone mac ick t
    unfolding receive
    receive-IsAlone w none mac ick s forged a t e = let same : s ≡ t = cc e in rw (← same) a
    receive-IsAlone w (some frame) mac ick s forged a t e =
        elim (handle_frame-IsAuthentic ops c w d frame s t e) [
          | inl same ↦ rw same a
          | inr authentic ↦ absurd (forged (rw (a.address, a.key) at authentic))
        ]

    run-IsAlone :
        (before after : World) (frame : Option EapolFrame) (mac ick : List ℕ) (s t : MkaSession D)
        (connected : Bool)
        → IsUnauthentic c mac ick frame
        → IsAlone mac ick s
        → run ops create c before after frame s ≡ ok (t, connected)
        → IsAlone mac ick t × (connected ≡ false)
    unfolding run
    run-IsAlone before after frame mac ick s t connected forged a ran =
        let (sent, before_wait, rest) = >>=-eq-ok (run_before ops create c before s) _ ran in
        let (received, at_wait, later) = >>=-eq-ok (receive ops create c after frame sent) _ rest in
        let (done, behind_wait, end) = >>=-eq-ok (run_after ops create c after received) _ later in
        let a1 : IsAlone mac ick sent =
          Ensures-ok (IsAlone mac ick) (run_before ops create c before s)
            (run_before-IsAlone mac ick ops create c before s a) before_wait in
        let a2 : IsAlone mac ick received =
          receive-IsAlone after frame mac ick sent forged a1 received at_wait in
        let a3 : IsAlone mac ick done =
          Ensures-ok (IsAlone mac ick) (run_after ops create c after received)
            (run_after-IsAlone mac ick ops create c after received a2) behind_wait in
        let same : done ≡ t = cc end in
        let said : secured done ≡ connected = cc end in
        (rw (← same) a3, rw (← said) (HasNoPeers-not_secured done a3.nobody))

    IsUnheard-nobody : (s : MkaSession D) → IsUnheard s → HasNoPeers s
    IsUnheard-nobody s (begins w config mac began) =
        Ensures-ok HasNoPeers (new c w config mac) (new-HasNoPeers D c w config mac) began
    IsUnheard-nobody t (goes_on before after frame {s} connected unheard forged ran) =
        let (a, _) =
          run-IsAlone before after frame s.mac s.ick s t connected forged
            (record { address = refl; key = refl; nobody = IsUnheard-nobody s unheard }) ran in
        a.nobody

    -- A session never reports a connection if, since `new`, no frame has come to it that carries a
    -- tag of its ICK, to the PAE group address and from another station: whatever else came, at any
    -- times, and whatever the device did. The crate's CMAC and key wrap are as documented.
    pub run-unheard :
        (before after : World) (frame : Option EapolFrame) (s t : MkaSession D) (connected : Bool)
        → IsUnheard s
        → IsUnauthentic c s.mac s.ick frame
        → run ops create c before after frame s ≡ ok (t, connected)
        → connected ≡ false
    run-unheard before after frame s t connected unheard forged ran =
        let (_, silent) =
          run-IsAlone before after frame s.mac s.ick s t connected forged
            (record { address = refl; key = refl; nobody = IsUnheard-nobody s unheard }) ran in
        silent
