-- ===== src/Wired/Mka/Session/Reachable.antt =====
-- The sessions that `new` and `run` lead to, and what all of them keep.
use shuli.Base.{ℕ, ◌≡◌, refl, arith, Bool, false, Option, none, some, List}
use shuli.Base.Outcome.{Outcome, ok, Ensures, Ensures-next, Ensures-bind, Ensures-if, Ensures-ok}
use shuli.Core.Types.{ErrorKind}
use shuli.Wired.Mka.Types.{MacsecConfig}
use shuli.Wired.Mka.Kdf.{Primitives}
use shuli.Wired.Mka.Session.State.{DeviceOps, World, MkaSession}
use shuli.Wired.Mka.Session.Receive.{EapolFrame}
use shuli.Wired.Mka.Session.Run.{
  fresh_session, new, expire_peers, send_mkpdu, ensure_macsec, remove_expired, run_before, receive,
  run_after, run, keep_fresh, note_expiry, ensure_device, expire_and_remove, send_when_due, serve,
  send_when_needed,
}
use shuli.Wired.Mka.Session.Invariant.{
  IsSession, elect_key_server-IsSession, ensure_sak-IsSession, drop_unsecure_sak-IsSession,
}
use shuli.Wired.Mka.Session.Updates.{macsec-IsSession, if-IsSession}
use shuli.Wired.Mka.Session.Steps.{handle_frame-IsSession}

module _ (D : Type 0) where
  fresh_session-IsSession :
      (config : MacsecConfig) (now : ℕ) (mac mi kek ick : List ℕ)
      → IsSession (fresh_session {D = D} config now mac mi kek ick)
  unfolding fresh_session
  fresh_session-IsSession config now mac mi kek ick = record {
    role = ground arith;
    keyed = refl;
    flags = refl;
    served = refl;
  }

  new-IsSession :
      (c : Primitives) (w : World) (config : MacsecConfig) (mac : List ℕ)
      → Ensures (IsSession {D = D}) (new c w config mac)
  unfolding new
  new-IsSession c w config mac =
      search (Ensures-next, elect_key_server-IsSession, fresh_session-IsSession) depth 20

module _ {D : Type 0} where
  keep_fresh-IsSession : (w : World) (s : MkaSession D) → IsSession s → IsSession (keep_fresh w s)
  unfolding keep_fresh
  keep_fresh-IsSession w s i = record {
    role = i.role;
    keyed = i.keyed;
    flags = i.flags;
    served = i.served;
  }

  note_expiry-IsSession : (s : MkaSession D) → IsSession s → IsSession (note_expiry s)
  unfolding note_expiry
  note_expiry-IsSession s i = record {
    role = i.role;
    keyed = i.keyed;
    flags = i.flags;
    served = i.served;
  }

  expire_peers-IsSession :
      (w : World) (s : MkaSession D) → IsSession s → IsSession (expire_peers w s)
  unfolding expire_peers
  expire_peers-IsSession w s i =
      search (if-IsSession, keep_fresh-IsSession, elect_key_server-IsSession, note_expiry-IsSession)
        depth 10

  sent-IsSession :
      (mn last_hello : ℕ) (s : MkaSession D)
      → IsSession s
      → IsSession (record s { mn = mn; last_hello = last_hello; need_send = false })
  sent-IsSession mn last_hello s i = record {
    role = i.role;
    keyed = i.keyed;
    flags = i.flags;
    served = i.served;
  }

  send_mkpdu-IsSession :
      (c : Primitives) (w : World) (s : MkaSession D)
      → IsSession s
      → Ensures IsSession (send_mkpdu c w s)
  unfolding send_mkpdu
  send_mkpdu-IsSession c w s i = search (Ensures-next, sent-IsSession) depth 10

  abbrev IsStep : MkaSession D × Bool → Type 0
  IsStep (t, connected) = IsSession t

  module _ (ops : DeviceOps D) (create : List ℕ → Bool → Outcome ErrorKind D) (c : Primitives) where
    remove_expired-IsSession :
        (dev : Option D) (scis : List (List ℕ)) (s : MkaSession D)
        → IsSession s
        → Ensures IsSession (remove_expired ops create c dev scis s)
    unfolding remove_expired
    remove_expired-IsSession none scis s i = i
    remove_expired-IsSession (some dev) scis s i = search (Ensures-next, macsec-IsSession) depth 10

    ensure_device-IsSession :
        (dev : Option D) (s : MkaSession D)
        → IsSession s
        → Ensures IsSession (ensure_device ops create c dev s)
    unfolding ensure_device
    ensure_device-IsSession (some dev) s i = i
    ensure_device-IsSession none s i = search (Ensures-next, macsec-IsSession) depth 10

    run_before-IsSession :
        (w : World) (s : MkaSession D)
        → IsSession s
        → Ensures IsSession (run_before ops create c w s)
    unfolding run_before ensure_macsec expire_and_remove send_when_due
    run_before-IsSession w s i =
        search
          (
            Ensures-bind IsSession IsSession,
            Ensures-if,
            ensure_device-IsSession,
            remove_expired-IsSession,
            expire_peers-IsSession,
            drop_unsecure_sak-IsSession,
            send_mkpdu-IsSession,
          )
          depth 30

    receive-IsSession :
        (w : World) (frame : Option EapolFrame) (s : MkaSession D)
        → IsSession s
        → Ensures IsSession (receive ops create c w frame s)
    unfolding receive
    receive-IsSession w none s i = i
    receive-IsSession w (some frame) s i = handle_frame-IsSession ops c w frame s i

    run_after-IsSession :
        (w : World) (s : MkaSession D)
        → IsSession s
        → Ensures IsSession (run_after ops create c w s)
    unfolding run_after serve send_when_needed
    run_after-IsSession w s i =
        search
          (
            Ensures-bind IsSession IsSession,
            Ensures-if,
            expire_peers-IsSession,
            drop_unsecure_sak-IsSession,
            ensure_sak-IsSession,
            send_mkpdu-IsSession,
          )
          depth 30

    -- The session that a run ends in.
    run-IsStep :
        (before after : World) (frame : Option EapolFrame) (s : MkaSession D)
        → IsSession s
        → Ensures IsStep (run ops create c before after frame s)
    unfolding run
    run-IsStep before after frame s i =
        Ensures-bind IsStep IsSession (run_before ops create c before s) _
          (run_before-IsSession before s i)
          λ sent j.
            Ensures-bind IsStep IsSession (receive ops create c after frame sent) _
              (receive-IsSession after frame sent j)
              λ received k.
                Ensures-bind IsStep IsSession (run_after ops create c after received) _
                  (run_after-IsSession after received k) λ done l. l

    -- The sessions that `new` gives, and that `run` leads to.
    pub data Reaches : MkaSession D → Type 0 where
      start :
          (w : World) (config : MacsecConfig) (mac : List ℕ) {s : MkaSession D}
          → new c w config mac ≡ ok s
          → Reaches s
      step :
          (before after : World) (frame : Option EapolFrame) {s t : MkaSession D} (connected : Bool)
          → Reaches s
          → run ops create c before after frame s ≡ ok (t, connected)
          → Reaches t

    -- Every session that starts with `new` and goes on by runs, with any frames and at any times,
    -- is Key Server only where it may be, has a key identifier exactly with a SAK, transmits or
    -- receives only with one, and distributes a SAK only as Key Server.
    pub Reaches-IsSession : (s : MkaSession D) → Reaches s → IsSession s
    Reaches-IsSession s (start w config mac began) =
        Ensures-ok IsSession (new c w config mac) (new-IsSession D c w config mac) began
    Reaches-IsSession t (step before after frame {s} connected reached ran) =
        Ensures-ok IsStep (run ops create c before after frame s)
          (run-IsStep before after frame s (Reaches-IsSession s reached)) ran
