-- ===== src/Wired/Mka/Session/State.antt =====
-- The state of `MkaSession` of wired/mka.rs, without its sockets, and what it calls: the MACsec
-- device, the clock, the source of random octets and the socket are parameters. An `Instant` is the
-- nanoseconds since some origin.
use shuli.Base.{
  ℕ, ◌+◌, ◌-◌, ◌%◌, ◌^◌, Bool, false, not, Option, none, some, List, [], ◌++◌, ◌==◌, ◌&&◌, ◌||◌,
  if◌then◌else◌, bytes_eq, any, replicate, is_some,
}
use shuli.Base.Outcome.{Outcome}
use shuli.Base.Bytes.{be16}
use shuli.Base.Vec.{position}
use shuli.Core.Types.{ErrorKind}
use shuli.Wired.Mka.Types.{KeyId, DistSak, mi_len, no_sci}

-- The methods of `MacsecDevice` that the session calls, on a device `D`: `install_rx_sa` of an SCI,
-- AN, key identifier and SAK; `install_tx_sa` of an AN, key identifier, SAK and whether it is
-- active; `set_tx_sa_active` of an AN; `remove_rx_sc` of an SCI; and `clear_sas`.
pub record DeviceOps (D : Type 0) : Type 0 where
  pub install_rx_sa : D → List ℕ → ℕ → KeyId → List ℕ → Outcome ErrorKind D
  pub install_tx_sa : D → ℕ → KeyId → List ℕ → Bool → Outcome ErrorKind D
  pub set_tx_sa_active : D → ℕ → Outcome ErrorKind D
  pub remove_rx_sc : D → List ℕ → Outcome ErrorKind D
  pub clear_sas : D → Outcome ErrorKind D

-- What the world gives to one step: the time, which every `Instant::now()` of the step reads; what
-- `getrandom::fill` gives for an MI and for a SAK, `none` where it fails; and what becomes of a
-- frame that is sent.
pub record World : Type 0 where
  pub now : ℕ
  pub random_mi : Option (List ℕ)
  pub random_sak : Option (List ℕ)
  pub send_eapol_frame : List ℕ → Outcome ErrorKind (Unit {0})

pub record Peer : Type 0 where
  pub mi : List ℕ
  pub mn : ℕ
  pub sci : List ℕ
  pub priority : ℕ
  pub key_server : Bool
  pub macsec_desired : Bool
  pub macsec_capability : ℕ
  pub live : Bool
  pub last_seen : ℕ
  pub rx_ready : Bool
  pub rx_installed : Bool

pub record MkaSession (D : Type 0) : Type 0 where
  pub mac : List ℕ
  pub ckn : List ℕ
  pub kek : List ℕ
  pub ick : List ℕ
  pub priority : ℕ
  pub can_be_key_server : Bool
  pub encrypt : Bool
  pub macsec : Option D
  pub mi : List ℕ
  pub mn : ℕ
  pub peers : List Peer
  pub is_key_server : Bool
  pub key_server_sci : List ℕ
  pub lki : Option KeyId
  pub lan : ℕ
  pub ltx : Bool
  pub lrx : Bool
  pub oki : Option KeyId
  pub oan : ℕ
  pub otx : Bool
  pub orx : Bool
  pub sak : Option (List ℕ)
  pub dist_sak : Option DistSak
  pub next_kn : ℕ
  pub last_hello : ℕ
  pub last_sak_time : Option ℕ
  pub need_send : Bool
  pub need_new_sak : Bool

unfoldable pub key_id_eq : KeyId → KeyId → Bool
key_id_eq a b = bytes_eq a.mi b.mi && a.kn == b.kn

-- `local == Some(peer)`
unfoldable pub sak_use_matches : Option KeyId → KeyId → Bool
sak_use_matches none ki = false
sak_use_matches (some lki) ki = key_id_eq lki ki

-- `peer.sci != [0u8; 8]`
unfoldable pub has_sci : Peer → Bool
has_sci peer = not (bytes_eq peer.sci no_sci)

-- `wrapping_add(1).max(1)` of a u32.
unfoldable pub next_number : ℕ → ℕ
next_number n = if (n + 1) % 2 ^ 32 == 0 then 1 else (n + 1) % 2 ^ 32

-- `wrapping_sub` of a u32.
unfoldable pub mn_is_recent : ℕ → ℕ → Bool
mn_is_recent own_next_mn peer_mn =
    peer_mn == (own_next_mn + 2 ^ 32 - 1) % 2 ^ 32 || peer_mn == (own_next_mn + 2 ^ 32 - 2) % 2 ^ 32

-- An MI of 0x5a where no random octets are given.
abbrev pub fresh_mi : Option (List ℕ) → List ℕ
fresh_mi none = replicate mi_len 90
fresh_mi (some mi) = mi

module _ {D : Type 0} where
  unfoldable pub actor_sci : MkaSession D → List ℕ
  actor_sci s = s.mac ++ be16 1

  unfoldable pub find_peer : MkaSession D → List ℕ → Option ℕ
  find_peer s mi = position (λ peer. bytes_eq peer.mi mi) s.peers

  unfoldable pub has_live_peer : MkaSession D → Bool
  has_live_peer s = any (λ peer. peer.live) s.peers

  unfoldable pub is_elected_key_server : MkaSession D → List ℕ → Bool
  is_elected_key_server s sci =
      not (bytes_eq s.key_server_sci no_sci) && bytes_eq sci s.key_server_sci

  unfoldable pub secured : MkaSession D → Bool
  secured s = is_some s.lki && (s.lrx && (s.ltx && has_live_peer s))

  unfoldable pub reset_mi : World → MkaSession D → MkaSession D
  reset_mi w s = record s {
    mi = fresh_mi w.random_mi;
    mn = 1;
    peers = [];
    is_key_server = s.can_be_key_server;
    key_server_sci = no_sci;
    lki = none;
    oki = none;
    sak = none;
    dist_sak = none;
    last_sak_time = none;
    ltx = false;
    lrx = false;
    need_new_sak = false;
  }
