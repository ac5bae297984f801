-- ===== src/Wired/Mka/Session/AloneSteps.antt =====
-- The steps of `run` of wired/mka.rs without a frame, in a session that knows of no peer.
use shuli.Base.{ℕ, ◌≡◌, refl, ◌∙◌, arith, Bool, false, not, Option, none, some, List, [], ◌||◌}
use shuli.Base.Outcome.{Outcome, Ensures, Ensures-next, Ensures-bind, Ensures-if}
use shuli.Core.Types.{ErrorKind}
use shuli.Wired.Mka.Kdf.{Primitives}
use shuli.Wired.Mka.Session.State.{DeviceOps, World, MkaSession, has_live_peer}
use shuli.Wired.Mka.Session.Election.{elect_key_server}
use shuli.Wired.Mka.Session.Sak.{forget_sak, drop_unsecure_sak, ensure_sak}
use shuli.Wired.Mka.Session.Run.{
  keep_fresh, expire_peers, send_mkpdu, ensure_device, ensure_macsec, remove_expired,
  expire_and_remove, send_when_due, run_before, serve, send_when_needed, run_after,
}
use shuli.Wired.Mka.Session.Invariant.{elect_key_server-kept, elect_key_server-station}
use shuli.Wired.Mka.Session.Silence.{HasNoPeers-not_live}

-- A session with an address and an ICK that knows of no peer.
pub record IsAlone {D : Type 0} (mac ick : List ℕ) (s : MkaSession D) : Type 0 where
  pub address : s.mac ≡ mac
  pub key : s.ick ≡ ick
  pub nobody : s.peers ≡ []

module _ {D : Type 0} (mac ick : List ℕ) where
  elect_key_server-IsAlone :
      (s : MkaSession D) → IsAlone mac ick s → IsAlone mac ick (elect_key_server s)
  elect_key_server-IsAlone s a =
      let (_, _, _, _, _, peers, _) = elect_key_server-kept s in
      let (address, key, _) = elect_key_server-station s in
      record { address = address ∙ a.address; key = key ∙ a.key; nobody = peers ∙ a.nobody }

  expire_peers-IsAlone :
      (w : World) (s : MkaSession D) → IsAlone mac ick s → IsAlone mac ick (expire_peers w s)
  unfolding expire_peers keep_fresh
  expire_peers-IsAlone w s a =
      rw a.nobody (record { address = a.address; key = a.key; nobody = refl })

  forget_sak-IsAlone :
      (dev : Option D) (s : MkaSession D) → IsAlone mac ick s → IsAlone mac ick (forget_sak dev s)
  unfolding forget_sak
  forget_sak-IsAlone dev s a = record {
    address = a.address;
    key = a.key;
    nobody = rw a.nobody refl;
  }

  macsec-IsAlone :
      (dev : D) (s : MkaSession D)
      → IsAlone mac ick s
      → IsAlone mac ick (record s { macsec = some dev })
  macsec-IsAlone dev s a = record { address = a.address; key = a.key; nobody = a.nobody }

  sent-IsAlone :
      (mn last_hello : ℕ) (s : MkaSession D)
      → IsAlone mac ick s
      → IsAlone mac ick (record s { mn = mn; last_hello = last_hello; need_send = false })
  sent-IsAlone mn last_hello s a = record { address = a.address; key = a.key; nobody = a.nobody }

  send_mkpdu-IsAlone :
      (c : Primitives) (w : World) (s : MkaSession D)
      → IsAlone mac ick s
      → Ensures (IsAlone mac ick) (send_mkpdu c w s)
  unfolding send_mkpdu
  send_mkpdu-IsAlone c w s a = search (Ensures-next, sent-IsAlone) depth 10

  module _ (ops : DeviceOps D) (create : List ℕ → Bool → Outcome ErrorKind D) (c : Primitives) where
    drop_unsecure_sak-IsAlone :
        (s : MkaSession D) → IsAlone mac ick s → Ensures (IsAlone mac ick) (drop_unsecure_sak ops s)
    unfolding drop_unsecure_sak
    drop_unsecure_sak-IsAlone s a = search (Ensures-if, Ensures-next, forget_sak-IsAlone) depth 10

    ensure_sak-IsAlone :
        (w : World) (s : MkaSession D)
        → IsAlone mac ick s
        → Ensures (IsAlone mac ick) (ensure_sak ops c w s)
    unfolding ensure_sak
    ensure_sak-IsAlone w s a =
        let dead = HasNoPeers-not_live s a.nobody in
        Ensures-if (IsAlone mac ick) (not s.is_key_server || not (has_live_peer s)) _ _ (λ _. a)
          λ alive. absurd (ground arith)

    ensure_device-IsAlone :
        (dev : Option D) (s : MkaSession D)
        → IsAlone mac ick s
        → Ensures (IsAlone mac ick) (ensure_device ops create c dev s)
    unfolding ensure_device
    ensure_device-IsAlone (some dev) s a = a
    ensure_device-IsAlone none s a = search (Ensures-next, macsec-IsAlone) depth 10

    remove_expired-IsAlone :
        (dev : Option D) (scis : List (List ℕ)) (s : MkaSession D)
        → IsAlone mac ick s
        → Ensures (IsAlone mac ick) (remove_expired ops create c dev scis s)
    unfolding remove_expired
    remove_expired-IsAlone none scis s a = a
    remove_expired-IsAlone (some dev) scis s a = search (Ensures-next, macsec-IsAlone) depth 10

    pub run_before-IsAlone :
        (w : World) (s : MkaSession D)
        → IsAlone mac ick s
        → Ensures (IsAlone mac ick) (run_before ops create c w s)
    unfolding run_before ensure_macsec expire_and_remove send_when_due
    run_before-IsAlone w s a =
        search
          (
            Ensures-bind (IsAlone mac ick) (IsAlone mac ick),
            Ensures-if,
            ensure_device-IsAlone,
            remove_expired-IsAlone,
            expire_peers-IsAlone,
            drop_unsecure_sak-IsAlone,
            send_mkpdu-IsAlone,
          )
          depth 30

    pub run_after-IsAlone :
        (w : World) (s : MkaSession D)
        → IsAlone mac ick s
        → Ensures (IsAlone mac ick) (run_after ops create c w s)
    unfolding run_after serve send_when_needed
    run_after-IsAlone w s a =
        search
          (
            Ensures-bind (IsAlone mac ick) (IsAlone mac ick),
            Ensures-if,
            expire_peers-IsAlone,
            drop_unsecure_sak-IsAlone,
            ensure_sak-IsAlone,
            send_mkpdu-IsAlone,
          )
          depth 30
