-- ===== src/Wired/Mka/Session/Distribution.antt =====
-- The SAK that a Key Server distributes is the one that the other participants install.
use shuli.Base.{
  ℕ, ◌+◌, ◌%◌, ◌≡◌, ◌⊎◌, refl, sym, ap, ◌∙◌, arith, Bool, true, false, Option, none, some, List, [],
  ◌∷◌, length,
}
use shuli.Base.Outcome.{ok}
use shuli.Wired.Mka.Types.{KeyId, DistSak}
use shuli.Wired.Mka.Kdf.{Primitives, Documented, wrap_key, unwrap_key}
use shuli.Wired.Mka.Session.State.{
  DeviceOps, World, Peer, MkaSession, sak_use_matches, is_elected_key_server,
}
use shuli.Wired.Mka.Session.Peers.{live_peer_scis, pending_rx_scis}
use shuli.Wired.Mka.Session.Sak.{
  dist_sak_supported, is_gcm_aes_128, confidentiality_offset, new_sak, installed_on, pending_on,
  install_rx_sas, install_own_sak, distribute_sak, install_pending, install_current,
  install_rx_sas_for_live_peers,
}
use shuli.Wired.Mka.Session.Receive.{sak_scis, received_sak}
use shuli.Wired.Mka.Session.Handle.{
  finish, install_received, accept_sak, take_unwrapped, is_wanted, take_dist_sak,
}
use shuli.Wired.Mka.Session.Run.{own_pdu}

-- A device on which SAs can be installed.
pub record CanInstall {D : Type 0} (ops : DeviceOps D) : Type 0 where
  pub rx :
      (dev : D) (sci : List ℕ) (an : ℕ) (ki : KeyId) (sak : List ℕ)
      → (next : D) × (ops.install_rx_sa dev sci an ki sak ≡ ok next)
  pub tx :
      (dev : D) (an : ℕ) (ki : KeyId) (sak : List ℕ) (active : Bool)
      → (next : D) × (ops.install_tx_sa dev an ki sak active ≡ ok next)

-- Two sessions use one SAK: the key, its identifier and its AN, for reception.
abbrev pub SameSak : {D : Type 0} → MkaSession D → MkaSession D → Type 0
SameSak s t = (s.lki ≡ t.lki) × (s.lan ≡ t.lan) × (s.sak ≡ t.sak) × (s.lrx ≡ t.lrx)

SameSak-transitive : {D : Type 0} (s t u : MkaSession D) → SameSak s t → SameSak t u → SameSak s u
SameSak-transitive s t u (ki, an, key, rx) (ki2, an2, key2, rx2) =
    (ki ∙ ki2, an ∙ an2, key ∙ key2, rx ∙ rx2)

SameSak-symmetric : {D : Type 0} (s t : MkaSession D) → SameSak s t → SameSak t s
SameSak-symmetric s t (ki, an, key, rx) = (sym ki, sym an, sym key, sym rx)

module _ {D : Type 0} (ops : DeviceOps D) (can : CanInstall ops) where
  install_rx_sas-eq-ok :
      (scis : List (List ℕ)) (an : ℕ) (ki : KeyId) (sak : List ℕ) (dev : D)
      → (next : D) × (install_rx_sas ops scis an ki sak dev ≡ ok next)
  unfolding install_rx_sas
  install_rx_sas-eq-ok [] an ki sak dev = (dev, refl)
  install_rx_sas-eq-ok (sci ∷ scis) an ki sak dev =
      let (one, first) = can.rx dev sci an ki sak in
      let (all, others) = install_rx_sas-eq-ok scis an ki sak one in (all, rw (first, others) refl)

  install_own_sak-SameSak :
      (dev : Option D) (ki : KeyId) (sak : List ℕ) (s : MkaSession D)
      → (t : MkaSession D) × (install_own_sak ops dev ki sak s ≡ ok t)
        × SameSak t s
        × (t.dist_sak ≡ s.dist_sak)
        × (t.is_key_server ≡ s.is_key_server)
  unfolding install_own_sak installed_on
  install_own_sak-SameSak none ki sak s =
      (record s { need_send = true }, refl, (refl, refl, refl, refl), refl, refl)
  install_own_sak-SameSak (some dev) ki sak s =
      let (sending, tx) = can.tx dev s.lan ki sak false in
      let (both, rx) = install_rx_sas-eq-ok (live_peer_scis s.peers) s.lan ki sak sending in
      (
        installed_on both (live_peer_scis s.peers) s,
        rw (tx, rx) refl,
        (refl, refl, refl, refl),
        refl,
        refl,
      )

  install_current-SameSak :
      (lki : Option KeyId) (sak : Option (List ℕ)) (dev : Option D) (pending : List (List ℕ))
      (s : MkaSession D)
      → (t : MkaSession D) × (install_current ops lki sak dev pending s ≡ ok t) × SameSak t s
  unfolding install_current install_pending pending_on
  install_current-SameSak none sak dev pending s = (s, refl, (refl, refl, refl, refl))
  install_current-SameSak (some ki) none dev pending s = (s, refl, (refl, refl, refl, refl))
  install_current-SameSak (some ki) (some sak) none pending s = (s, refl, (refl, refl, refl, refl))
  install_current-SameSak (some ki) (some sak) (some dev) [] s = (s, refl, (refl, refl, refl, refl))
  install_current-SameSak (some ki) (some sak) (some dev) (sci ∷ scis) s =
      let (next, installed) = install_rx_sas-eq-ok (sci ∷ scis) s.lan ki sak dev in
      (pending_on next (sci ∷ scis) s, rw installed refl, (refl, refl, refl, refl))

  install_received-SameSak :
      (c : Primitives) (w : World) (dev : Option D) (scis : List (List ℕ)) (ki : KeyId)
      (sak : List ℕ) (s : MkaSession D)
      → (t : MkaSession D) × (install_received ops c w dev scis ki sak s ≡ ok t)
        × SameSak t s
        × (t.is_key_server ≡ s.is_key_server)
  unfolding install_received installed_on
  install_received-SameSak c w none scis ki sak s =
      (record s { need_send = true }, refl, (refl, refl, refl, refl), refl)
  install_received-SameSak c w (some dev) scis ki sak s =
      let (receiving, rx) = install_rx_sas-eq-ok scis s.lan ki sak dev in
      let (both, tx) = can.tx receiving s.lan ki sak false in
      (installed_on both scis s, rw (rx, tx) refl, (refl, refl, refl, refl), refl)

-- An offset that a Key Server announces is one that a participant with its setting supports.
supported-own :
    (encrypt : Bool) (dist : DistSak)
    → dist.confidentiality_offset ≡ confidentiality_offset encrypt
    → dist.cipher_suite ≡ none
    → dist_sak_supported encrypt dist ≡ true
unfolding dist_sak_supported confidentiality_offset is_gcm_aes_128
supported-own true dist offset suite = rw (offset, suite) refl
supported-own false dist offset suite = rw (offset, suite) refl

module _ {D : Type 0} (ops : DeviceOps D) (can : CanInstall ops) (c : Primitives) (d : Documented c)
    (w : World) where
  -- Who accepts a SAK has its key identifier, its AN and its key, and receives with it.
  accept_sak-installs :
      (ki : KeyId) (dist : DistSak) (sender : Peer) (sak : List ℕ) (s : MkaSession D)
      → s.is_key_server ≡ false
      → (t : MkaSession D) × (accept_sak ops c w ki dist sender sak s ≡ ok t)
        × SameSak t (received_sak ki dist sak s)
  unfolding accept_sak finish install_rx_sas_for_live_peers received_sak
  accept_sak-installs ki dist sender sak s not_server =
      let taken = received_sak ki dist sak s in
      let (installed, done, same, role) =
        install_received-SameSak ops can c w s.macsec (sak_scis s.peers sender.sci) ki sak taken in
      let (t, rest, same2) =
        install_current-SameSak ops can installed.lki installed.sak installed.macsec
          (pending_rx_scis installed.peers) installed in
      let served : installed.is_key_server ≡ false = role ∙ not_server in
      (t, rw (done, served) rest, SameSak-transitive t installed taken same2 same)

  -- A Distributed SAK that passes the guards is accepted.
  take_dist_sak-accepts :
      (dist : DistSak) (sender : Peer) (sak : List ℕ) (s : MkaSession D)
      → is_wanted ops c w dist sender s ≡ true
      → dist_sak_supported s.encrypt dist ≡ true
      → sak_use_matches s.lki (record { mi = sender.mi; kn = dist.kn }) ≡ false
      → unwrap_key c s.kek dist.wrapped_sak ≡ ok sak
      → length sak ≡ 16
      → take_dist_sak ops c w (some dist) sender s
        ≡ accept_sak ops c w (record { mi = sender.mi; kn = dist.kn }) dist sender sak s
  unfolding take_dist_sak take_unwrapped
  take_dist_sak-accepts dist sender sak s wanted supported fresh unwraps sixteen =
      ground (arith, wanted, supported, fresh, unwraps)

  -- The Key Server's side: what it then sends, and what it receives with.
  distribute_sak-own_pdu :
      (a : MkaSession D) (sak wrapped : List ℕ)
      → w.random_sak ≡ some sak
      → wrap_key c a.kek sak ≡ ok wrapped
      → a.is_key_server ≡ true
      → (served : MkaSession D) × (distribute_sak ops c w a ≡ ok served)
        × SameSak served (new_sak w sak wrapped a)
        × ((own_pdu served).dist_sak ≡ (new_sak w sak wrapped a).dist_sak)
  unfolding distribute_sak own_pdu new_sak
  distribute_sak-own_pdu a sak wrapped random wraps serves =
      let (served, done, same, dist, role) =
        install_own_sak-SameSak ops can a.macsec (record { mi = a.mi; kn = a.next_kn }) sak
          (new_sak w sak wrapped a) in
      let server : served.is_key_server ≡ true = role ∙ serves in
      (served, rw (random, wraps) done, same, rw (server, dist) refl)

  -- Where the crates and the device do what they document, a Key Server with a random SAK of 16
  -- octets distributes it, and a participant with its KEK and its setting of encryption, which has
  -- elected it and does not have this key identifier, takes it from the MKPDU: both then receive
  -- with one key, key identifier and AN.
  pub take_dist_sak-own_pdu :
      (a b : MkaSession D) (sender : Peer) (sak : List ℕ)
      → w.random_sak ≡ some sak
      → length sak ≡ 16
      → (length a.kek ≡ 16) ⊎ (length a.kek ≡ 32)
      → a.is_key_server ≡ true
      → b.is_key_server ≡ false
      → b.kek ≡ a.kek
      → b.encrypt ≡ a.encrypt
      → sender.mi ≡ a.mi
      → sender.live ≡ true
      → sender.key_server ≡ true
      → is_elected_key_server b sender.sci ≡ true
      → sak_use_matches b.lki (record { mi = a.mi; kn = a.next_kn }) ≡ false
      → (served : MkaSession D) × (taken : MkaSession D) × (distribute_sak ops c w a ≡ ok served)
        × (take_dist_sak ops c w (own_pdu served).dist_sak sender b ≡ ok taken)
        × SameSak taken served
        × (taken.sak ≡ some sak)
  unfolding new_sak wrap_key unwrap_key is_wanted received_sak
  take_dist_sak-own_pdu a b sender sak random sixteen kek serves listens same_kek same_encrypt mi
        live key_server elected fresh =
      let (wrapped, wraps, longer, unwraps) =
        d.wrap-unwrap a.kek sak kek (omega arith) (omega arith) in
      let wraps_key : wrap_key c a.kek sak ≡ ok wrapped = ground (arith, wraps) in
      let unwraps_key : unwrap_key c b.kek wrapped ≡ ok sak =
        rw same_kek (ground (arith, unwraps)) in
      let (served, done, same, sent) =
        distribute_sak-own_pdu a sak wrapped random wraps_key serves in
      let dist : DistSak = record {
        an = (a.lan + 1) % 4;
        confidentiality_offset = confidentiality_offset a.encrypt;
        kn = a.next_kn;
        cipher_suite = none;
        wrapped_sak = wrapped;
      } in
      let wanted : is_wanted ops c w dist sender b ≡ true = ground (arith, elected) in
      let supported =
        supported-own b.encrypt dist (ap confidentiality_offset (sym same_encrypt)) refl in
      let old : sak_use_matches b.lki (record { mi = sender.mi; kn = a.next_kn }) ≡ false =
        rw mi fresh in
      let accepts =
        take_dist_sak-accepts dist sender sak b wanted supported old unwraps_key sixteen in
      let (taken, installed, same2) =
        accept_sak-installs (record { mi = sender.mi; kn = a.next_kn }) dist sender sak b listens in
      let both : SameSak (received_sak (record { mi = sender.mi; kn = a.next_kn }) dist sak b)
          (new_sak w sak wrapped a) =
        (ap (λ m. some (record { mi = m; kn = a.next_kn })) mi, refl, refl, refl) in
      let (_, _, key, _) = same2 in
      let mine = received_sak (record { mi = sender.mi; kn = a.next_kn }) dist sak b in
      let theirs = new_sak w sak wrapped a in
      (
        served,
        taken,
        done,
        rw sent (accepts ∙ installed),
        SameSak-transitive taken theirs served (SameSak-transitive taken mine theirs same2 both)
            (SameSak-symmetric served theirs same),
        key,
      )
