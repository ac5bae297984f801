-- ===== src/Wired/Mka/Session/Run.antt =====
-- `new`, `expire_peers`, `send_mkpdu` and `run` of `MkaSession` of wired/mka.rs.
use shuli.Base.{
  ℕ, ◌+◌, ◌-◌, Bool, true, false, not, Option, none, some, List, [], ◌∷◌, ◌&&◌, ◌||◌, leb, ◌==◌,
  if◌then◌else◌, length, retain, map, is_some, replicate,
}
use shuli.Base.Outcome.{Outcome, ok, ◌>>=◌, ◌>>◌}
use shuli.Core.Types.{ErrorKind}
use shuli.Wired.Mka.Types.{
  KeyId, SakUse, MkaPdu, MacsecConfig, validate, mka_version, mka_hello, algo_agility,
  macsec_cap_integrity_confidentiality, pae_group_addr, no_sci, mi_len,
}
use shuli.Wired.Mka.Kdf.{Primitives, or_failed, derive_kek, derive_ick}
use shuli.Wired.Mka.Pdu.Frame.{build_eapol}
use shuli.Wired.Mka.Session.State.{
  DeviceOps, World, MkaSession, next_number, actor_sci, has_live_peer, has_sci, secured,
}
use shuli.Wired.Mka.Session.Peers.{is_fresh, ordered_live_peers, ordered_potential_peers}
use shuli.Wired.Mka.Session.Election.{elect_key_server}
use shuli.Wired.Mka.Session.Sak.{ensure_sak, drop_unsecure_sak}
use shuli.Wired.Mka.Session.Receive.{EapolFrame}
use shuli.Wired.Mka.Session.Handle.{handle_frame}

-- `unwrap_or_default`
abbrev pub old_ki_or_default : Option KeyId → KeyId
old_ki_or_default none = record { mi = replicate mi_len 0; kn = 0 }
old_ki_or_default (some ki) = ki

module _ {D : Type 0} where
  -- The struct that `new` builds, before the election, on an interface with the address `mac`.
  unfoldable pub fresh_session : MacsecConfig → ℕ → List ℕ → List ℕ → List ℕ → List ℕ → MkaSession D
  fresh_session config now mac mi kek ick = record {
    mac = mac;
    ckn = config.ckn;
    kek = kek;
    ick = ick;
    priority = config.key_server_priority;
    can_be_key_server = config.can_be_key_server;
    encrypt = config.encrypt;
    macsec = none;
    mi = mi;
    mn = 1;
    peers = [];
    is_key_server = config.can_be_key_server;
    key_server_sci = no_sci;
    lki = none;
    lan = 0;
    ltx = false;
    lrx = false;
    oki = none;
    oan = 0;
    otx = false;
    orx = false;
    sak = none;
    dist_sak = none;
    next_kn = 1;
    last_hello = if leb mka_hello now then now - mka_hello else now;
    last_sak_time = none;
    need_send = true;
    need_new_sak = false;
  }

  unfoldable pub new : Primitives → World → MacsecConfig → List ℕ → Outcome ErrorKind (MkaSession D)
  new c w config mac = do
    validate config
    kek ← derive_kek c config.cak config.ckn
    ick ← derive_ick c config.cak config.ckn
    mi ← or_failed w.random_mi
    ok (elect_key_server (fresh_session config w.now mac mi kek ick))

  -- `expired_scis`
  unfoldable pub expired_scis : World → MkaSession D → List (List ℕ)
  expired_scis w s =
      map (λ peer. peer.sci) (retain (λ peer. not (is_fresh w.now peer) && has_sci peer) s.peers)

  -- `self.peers.retain(..)`
  unfoldable pub keep_fresh : World → MkaSession D → MkaSession D
  keep_fresh w s = record s { peers = retain (is_fresh w.now) s.peers }

  -- The membership changed.
  unfoldable pub note_expiry : MkaSession D → MkaSession D
  note_expiry s = record s {
    need_send = true;
    need_new_sak = s.need_new_sak || (s.is_key_server && (is_some s.lki && has_live_peer s));
  }

  unfoldable pub expire_peers : World → MkaSession D → MkaSession D
  expire_peers w s =
      if length (keep_fresh w s).peers == length s.peers
      then keep_fresh w s
      else elect_key_server (note_expiry (keep_fresh w s))

  unfoldable pub own_sak_use : MkaSession D → KeyId → SakUse
  own_sak_use s ki = record {
    latest_an = s.lan;
    latest_tx = s.ltx;
    latest_rx = s.lrx;
    old_an = s.oan;
    old_tx = s.otx;
    old_rx = s.orx;
    plain_tx = false;
    plain_rx = false;
    delay_protect = false;
    latest_ki = ki;
    latest_llpn = 0;
    old_ki = old_ki_or_default s.oki;
    old_llpn = 0;
  }

  unfoldable pub own_pdu : MkaSession D → MkaPdu
  own_pdu s = record {
    basic = record {
      version = mka_version;
      priority = s.priority;
      key_server = s.is_key_server;
      macsec_desired = true;
      macsec_capability = macsec_cap_integrity_confidentiality;
      sci = actor_sci s;
      mi = s.mi;
      mn = s.mn;
      algo_agility = algo_agility;
      ckn = s.ckn;
    };
    live_peers = ordered_live_peers s.peers;
    potential_peers = ordered_potential_peers s.peers;
    sak_use = elim s.lki [ none ↦ none | some ki ↦ some (own_sak_use s ki) ];
    dist_sak = if s.is_key_server then s.dist_sak else none;
  }

  unfoldable pub send_mkpdu : Primitives → World → MkaSession D → Outcome ErrorKind (MkaSession D)
  send_mkpdu c w s = do
    frame ← build_eapol c (own_pdu s) pae_group_addr s.mac s.ick
    w.send_eapol_frame frame
    ok (record s { mn = next_number s.mn; last_hello = w.now; need_send = false })

  module _ (ops : DeviceOps D) (create : List ℕ → Bool → Outcome ErrorKind D) (c : Primitives) where
    -- `MacsecDevice::create`, of the SCI and whether to encrypt, is the parameter `create`.
    unfoldable pub ensure_device : Option D → MkaSession D → Outcome ErrorKind (MkaSession D)
    ensure_device (some dev) s = ok s
    ensure_device none s = do
      dev ← create (actor_sci s) s.encrypt
      ok (record s { macsec = some dev })

    unfoldable pub ensure_macsec : MkaSession D → Outcome ErrorKind (MkaSession D)
    ensure_macsec s = ensure_device s.macsec s

    -- `for sci in &expired_scis { dev.remove_rx_sc(sci).await?; }`
    unfoldable pub remove_rx_scs : List (List ℕ) → D → Outcome ErrorKind D
    remove_rx_scs [] dev = ok dev
    remove_rx_scs (sci ∷ scis) dev = do next ← ops.remove_rx_sc dev sci; remove_rx_scs scis next

    unfoldable pub remove_expired :
        Option D → List (List ℕ) → MkaSession D → Outcome ErrorKind (MkaSession D)
    remove_expired none scis s = ok s
    remove_expired (some dev) scis s = do
      removed ← remove_rx_scs scis dev
      ok (record s { macsec = some removed })

    -- `run` up to the wait for a frame.
    unfoldable pub expire_and_remove : World → MkaSession D → Outcome ErrorKind (MkaSession D)
    expire_and_remove w s =
        remove_expired (expire_peers w s).macsec (expired_scis w s) (expire_peers w s)

    unfoldable pub send_when_due : World → MkaSession D → Outcome ErrorKind (MkaSession D)
    send_when_due w s =
        if s.need_send || leb (s.last_hello + mka_hello) w.now then send_mkpdu c w s else ok s

    unfoldable pub run_before : World → MkaSession D → Outcome ErrorKind (MkaSession D)
    run_before w s = do
      ready ← ensure_macsec s
      removed ← expire_and_remove w ready
      dropped ← drop_unsecure_sak ops removed
      send_when_due w dropped

    -- The frame that came, or the timeout.
    unfoldable pub receive :
        World → Option EapolFrame → MkaSession D → Outcome ErrorKind (MkaSession D)
    receive w none s = ok s
    receive w (some frame) s = handle_frame ops c w frame s

    -- `run` behind the wait.
    unfoldable pub serve : World → MkaSession D → Outcome ErrorKind (MkaSession D)
    serve w s = if s.is_key_server then ensure_sak ops c w s else ok s

    unfoldable pub send_when_needed : World → MkaSession D → Outcome ErrorKind (MkaSession D)
    send_when_needed w s = if s.need_send then send_mkpdu c w s else ok s

    unfoldable pub run_after : World → MkaSession D → Outcome ErrorKind (MkaSession D)
    run_after w s = do
      dropped ← drop_unsecure_sak ops (expire_peers w s)
      served ← serve w dropped
      send_when_needed w served

    -- One step, with the world before the wait and after it: the session, and whether it is secured.
    unfoldable pub run :
        World → World → Option EapolFrame → MkaSession D → Outcome ErrorKind (MkaSession D × Bool)
    run before after frame s = do
      sent ← run_before before s
      received ← receive after frame sent
      done ← run_after after received
      ok (done, secured done)
