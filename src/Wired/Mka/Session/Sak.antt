-- ===== src/Wired/Mka/Session/Sak.antt =====
-- The SAK of `MkaSession` of wired/mka.rs: `ensure_sak`, `install_rx_sas_for_live_peers`,
-- `activate_tx_sa` and `drop_unsecure_sak`.
use shuli.Base.{
  ℕ, ◌+◌, ◌-◌, ◌%◌, Bool, true, false, not, Option, none, some, List, [], ◌∷◌, ◌&&◌, ◌||◌, ltb,
  ◌==◌, if◌then◌else◌, retain, map, bytes_eq, all, is_some, is_some_and,
}
use shuli.Base.Outcome.{Outcome, ok, ◌>>=◌}
use shuli.Core.Types.{ErrorKind}
use shuli.Wired.Mka.Types.{KeyId, DistSak, mka_life, macsec_cap_not_implemented}
use shuli.Wired.Mka.Kdf.{Primitives, or_failed, wrap_key}
use shuli.Wired.Mka.Session.State.{DeviceOps, World, Peer, MkaSession, next_number, has_live_peer}
use shuli.Wired.Mka.Session.Peers.{contains, live_peer_scis, pending_rx_scis}

-- `CS_ID_GCM_AES_128`
abbrev pub cs_id_gcm_aes_128 : List ℕ
cs_id_gcm_aes_128 = 0 ∷ 128 ∷ 2 ∷ 0 ∷ 1 ∷ 0 ∷ 0 ∷ 1 ∷ []

unfoldable pub confidentiality_offset : Bool → ℕ
confidentiality_offset true = 1
confidentiality_offset false = 0

-- `is_none_or(|suite| suite == CS_ID_GCM_AES_128)`
unfoldable pub is_gcm_aes_128 : Option (List ℕ) → Bool
is_gcm_aes_128 none = true
is_gcm_aes_128 (some suite) = bytes_eq suite cs_id_gcm_aes_128

-- `!=` of Booleans.
abbrev pub differs : Bool → Bool → Bool
differs true b = not b
differs false b = b

unfoldable pub dist_sak_supported : Bool → DistSak → Bool
dist_sak_supported encrypt dist =
    if ltb 1 dist.confidentiality_offset
    then false
    else if differs encrypt (dist.confidentiality_offset == 1)
    then false
    else is_gcm_aes_128 dist.cipher_suite

abbrev pub mark_rx_ready : Bool → Peer → Peer
mark_rx_ready ready peer = record peer { rx_ready = ready }

abbrev pub unready : Peer → Peer
unready peer = record peer { rx_ready = false; rx_installed = false }

-- `peer.live && scis.contains(&peer.sci)`
unfoldable pub mark_installed : List (List ℕ) → List Peer → List Peer
mark_installed scis peers =
    map
      (λ peer.
        if peer.live && contains scis peer.sci then record peer { rx_installed = true } else peer)
      peers

-- `elapsed < Duration::from_secs(MKA_LIFE_SECS)`, which `Duration::MAX` is not.
unfoldable pub sak_is_young : ℕ → Option ℕ → Bool
sak_is_young now none = false
sak_is_young now (some time) = ltb (now - time) mka_life

module _ {D : Type 0} where
  unfoldable pub peers_support_macsec : MkaSession D → Bool
  peers_support_macsec s =
      all (λ peer. not (peer.macsec_capability == macsec_cap_not_implemented))
        (retain (λ peer. peer.live) s.peers)

  unfoldable pub current_is_ours : MkaSession D → Bool
  current_is_ours s = is_some_and (λ ki. bytes_eq ki.mi s.mi) s.lki

  -- The assignments of `ensure_sak` before the device is told.
  unfoldable pub new_sak : World → List ℕ → List ℕ → MkaSession D → MkaSession D
  new_sak w sak wrapped s = record s {
    next_kn = next_number s.next_kn;
    oki = s.lki;
    oan = s.lan;
    otx = s.ltx;
    orx = s.lrx;
    lki = some (record { mi = s.mi; kn = s.next_kn });
    lan = (s.lan + 1) % 4;
    ltx = false;
    lrx = true;
    sak = some sak;
    last_sak_time = some w.now;
    need_new_sak = false;
    peers = map unready s.peers;
    dist_sak = some (record {
      an = (s.lan + 1) % 4;
      confidentiality_offset = confidentiality_offset s.encrypt;
      kn = s.next_kn;
      cipher_suite = none;
      wrapped_sak = wrapped;
    });
  }

  -- What is left to assign when the device has the SAs of a new SAK, and of pending peers.
  unfoldable pub installed_on : D → List (List ℕ) → MkaSession D → MkaSession D
  installed_on dev scis s = record s {
    macsec = some dev;
    peers = mark_installed scis s.peers;
    need_send = true;
  }

  unfoldable pub pending_on : D → List (List ℕ) → MkaSession D → MkaSession D
  pending_on dev pending s = record s {
    macsec = some dev;
    peers =
        map
          (λ peer. if contains pending peer.sci then record peer { rx_installed = true } else peer)
          s.peers;
  }

  unfoldable pub forget_sak : Option D → MkaSession D → MkaSession D
  forget_sak dev s = record s {
    macsec = dev;
    lki = none;
    oki = none;
    lan = 0;
    oan = 0;
    ltx = false;
    lrx = false;
    otx = false;
    orx = false;
    sak = none;
    dist_sak = none;
    last_sak_time = none;
    need_new_sak = false;
    peers = map (mark_rx_ready false) s.peers;
    need_send = true;
  }

  module _ (ops : DeviceOps D) where
    -- `for sci in scis { dev.install_rx_sa(sci, an, ki, sak).await?; }`
    unfoldable pub install_rx_sas : List (List ℕ) → ℕ → KeyId → List ℕ → D → Outcome ErrorKind D
    install_rx_sas [] an ki sak dev = ok dev
    install_rx_sas (sci ∷ scis) an ki sak dev = do
      next ← ops.install_rx_sa dev sci an ki sak
      install_rx_sas scis an ki sak next

    -- `if let Some(dev)`: the TX SA, then an RX SA for each live peer.
    unfoldable pub install_own_sak :
        Option D → KeyId → List ℕ → MkaSession D → Outcome ErrorKind (MkaSession D)
    install_own_sak none ki sak s = ok (record s { need_send = true })
    install_own_sak (some dev) ki sak s = do
      sending ← ops.install_tx_sa dev s.lan ki sak false
      both ← install_rx_sas (live_peer_scis s.peers) s.lan ki sak sending
      ok (installed_on both (live_peer_scis s.peers) s)

    unfoldable pub distribute_sak :
        Primitives → World → MkaSession D → Outcome ErrorKind (MkaSession D)
    distribute_sak c w s = do
      sak ← or_failed w.random_sak
      wrapped ← wrap_key c s.kek sak
      install_own_sak s.macsec (record { mi = s.mi; kn = s.next_kn }) sak (new_sak w sak wrapped s)

    unfoldable pub ensure_sak : Primitives → World → MkaSession D → Outcome ErrorKind (MkaSession D)
    ensure_sak c w s =
        if not s.is_key_server || not (has_live_peer s)
        then ok s
        else if not (peers_support_macsec s)
        then ok s
        else if current_is_ours s && not s.need_new_sak
        then ok s
        else if current_is_ours s && sak_is_young w.now s.last_sak_time
        then ok s
        else distribute_sak c w s

    unfoldable pub install_pending :
        KeyId → List ℕ → D → List (List ℕ) → MkaSession D → Outcome ErrorKind (MkaSession D)
    install_pending ki sak dev pending s = do
      installed ← install_rx_sas pending s.lan ki sak dev
      ok (pending_on installed pending s)

    -- `let (Some(ki), Some(sak)) = .. else`, `pending.is_empty()` and `self.macsec.is_none()`.
    unfoldable pub install_current :
        Option KeyId
        → Option (List ℕ)
        → Option D
        → List (List ℕ)
        → MkaSession D
        → Outcome ErrorKind (MkaSession D)
    install_current (some ki) (some sak) (some dev) (sci ∷ scis) s =
        install_pending ki sak dev (sci ∷ scis) s
    install_current _ _ _ _ s = ok s

    unfoldable pub install_rx_sas_for_live_peers : MkaSession D → Outcome ErrorKind (MkaSession D)
    install_rx_sas_for_live_peers s =
        install_current s.lki s.sak s.macsec (pending_rx_scis s.peers) s

    -- `activate_tx_sa`, on the device there is.
    unfoldable pub activate_device : Option D → MkaSession D → Outcome ErrorKind (MkaSession D)
    activate_device none s = ok s
    activate_device (some dev) s = do
      active ← ops.set_tx_sa_active dev s.lan
      ok (record s { macsec = some active })

    unfoldable pub activate_tx_sa : MkaSession D → Outcome ErrorKind (MkaSession D)
    activate_tx_sa s = activate_device s.macsec s

    -- `dev.clear_sas()`, where there is a device.
    unfoldable pub clear_device : Option D → Outcome ErrorKind (Option D)
    clear_device none = ok none
    clear_device (some dev) = do cleared ← ops.clear_sas dev; ok (some cleared)

    unfoldable pub drop_unsecure_sak : MkaSession D → Outcome ErrorKind (MkaSession D)
    drop_unsecure_sak s =
        let dropped = (do dev ← clear_device s.macsec; ok (forget_sak dev s)) in
        if not (is_some s.lki) || has_live_peer s then ok s else dropped
