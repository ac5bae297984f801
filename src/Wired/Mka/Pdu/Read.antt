-- ===== src/Wired/Mka/Pdu/Read.antt =====
-- `MkaPdu::parse_body` of wired/mka.rs. The loop over the parameter sets runs on `body[pos..]`,
-- the octets that are left.
use shuli.Base.{
  ℕ, zero, suc, ◌+◌, ◌*◌, ◌/◌, ◌%◌, not, Option, none, some, List, [], ◌∷◌, length, drop, ltb, leb,
  ◌==◌, ◌||◌, if◌then◌else◌,
}
use shuli.Base.Outcome.{Outcome, ok, out_of_fuel, refuse_if, ◌>>=◌, ◌>>◌}
use shuli.Base.Bytes.{byte, slice, slice_to, u32_at, has_bit}
use shuli.Core.Types.{ErrorKind, handshake_failed}
use shuli.Wired.Mka.Types.{KeyId, PeerId, MkaBasic, SakUse, DistSak, MkaPdu}

unfoldable pub align4 : ℕ → ℕ
align4 n = (n + 3) / 4 * 4

-- `((high & 0x0f) << 8) | low`
unfoldable pub twelve_bits : ℕ → ℕ → ℕ
twelve_bits high low = high % 16 * 256 + low

unfoldable pub read_peers : ℕ → List ℕ → Outcome ErrorKind (List PeerId)
read_peers zero octets = ok []
read_peers (suc count) octets =
    let peers = (do
      chunk ← slice_to octets 16
      mi ← slice_to chunk 12
      mn ← u32_at chunk 12
      others ← read_peers count (drop 16 octets)
      ok (record { mi = mi; mn = mn } ∷ others)) in
    if ltb (length octets) 16 then ok [] else peers

unfoldable pub read_basic : List ℕ → ℕ → ℕ → ℕ → ℕ → Outcome ErrorKind MkaBasic
read_basic body version priority flags basic_len = do
  refuse_if (ltb basic_len 28 || ltb (length body) (4 + basic_len)) handshake_failed
  sci ← slice body 4 12
  mi ← slice body 12 24
  mn ← u32_at body 24
  agility ← slice body 28 32
  ckn ← slice body 32 (4 + basic_len)
  ok (record {
    version = version;
    priority = priority;
    key_server = has_bit flags 7;
    macsec_desired = has_bit flags 6;
    macsec_capability = flags / 16 % 4;
    sci = sci;
    mi = mi;
    mn = mn;
    algo_agility = agility;
    ckn = ckn;
  })

unfoldable pub read_key_id : List ℕ → ℕ → Outcome ErrorKind KeyId
read_key_id octets start = do
  mi ← slice octets start (start + 12)
  kn ← u32_at octets (start + 12)
  ok (record { mi = mi; kn = kn })

-- The body of a MACsec SAK Use set, of 40 octets or more.
unfoldable pub read_sak_use : ℕ → ℕ → List ℕ → Outcome ErrorKind SakUse
read_sak_use octet2 octet3 octets = do
  latest_ki ← read_key_id octets 0
  old_ki ← read_key_id octets 20
  latest_llpn ← u32_at octets 16
  old_llpn ← u32_at octets 36
  ok (record {
    latest_an = octet2 / 64 % 4;
    latest_tx = has_bit octet2 5;
    latest_rx = has_bit octet2 4;
    old_an = octet2 / 4 % 4;
    old_tx = has_bit octet2 1;
    old_rx = has_bit octet2 0;
    plain_tx = has_bit octet3 7;
    plain_rx = has_bit octet3 6;
    delay_protect = has_bit octet3 4;
    latest_ki = latest_ki;
    latest_llpn = latest_llpn;
    old_ki = old_ki;
    old_llpn = old_llpn;
  })

unfoldable pub read_cipher_suite : List ℕ → Outcome ErrorKind (Option (List ℕ))
read_cipher_suite octets =
    let given = (do suite ← slice octets 4 12; ok (some suite)) in
    if leb 36 (length octets) then given else ok none

-- `(cipher_suite, kn)`
unfoldable pub read_suite_and_kn : List ℕ → Outcome ErrorKind (Option (List ℕ) × ℕ)
read_suite_and_kn octets =
    let given = (do kn ← u32_at octets 0; suite ← read_cipher_suite octets; ok (suite, kn)) in
    if leb 4 (length octets) then given else ok (none, 0)

-- `4 + cipher_suite.map_or(0, |_| 8)`
unfoldable pub wrapped_start : Option (List ℕ) → ℕ
wrapped_start none = 4
wrapped_start (some suite) = 12

unfoldable pub read_dist_sak : ℕ → List ℕ → Outcome ErrorKind DistSak
read_dist_sak octet2 octets = do
  (suite, kn) ← read_suite_and_kn octets
  ok (record {
    an = octet2 / 64 % 4;
    confidentiality_offset = octet2 / 16 % 4;
    kn = kn;
    cipher_suite = suite;
    wrapped_sak =
        if leb (wrapped_start suite) (length octets) then drop (wrapped_start suite) octets else [];
  })

-- The four local variables that the loop over the parameter sets fills.
pub record Sets : Type 0 where
  pub live_peers : List PeerId
  pub potential_peers : List PeerId
  pub sak_use : Option SakUse
  pub dist_sak : Option DistSak

abbrev pub no_sets : Sets
no_sets = record { live_peers = []; potential_peers = []; sak_use = none; dist_sak = none }

-- The arms of `match type_`.
unfoldable pub live_set : List ℕ → Sets → Outcome ErrorKind Sets
live_set octets sets = do
  refuse_if (not (length octets % 16 == 0)) handshake_failed
  peers ← read_peers (length octets / 16) octets
  ok (record sets { live_peers = peers })

unfoldable pub potential_set : List ℕ → Sets → Outcome ErrorKind Sets
potential_set octets sets = do
  refuse_if (not (length octets % 16 == 0)) handshake_failed
  peers ← read_peers (length octets / 16) octets
  ok (record sets { potential_peers = peers })

unfoldable pub sak_use_set : ℕ → ℕ → List ℕ → Sets → Outcome ErrorKind Sets
sak_use_set octet2 octet3 octets sets =
    let given = (do
      sak_use ← read_sak_use octet2 octet3 octets
      ok (record sets { sak_use = some sak_use })) in
    if leb 40 (length octets) then given else ok sets

unfoldable pub dist_sak_set : ℕ → List ℕ → Sets → Outcome ErrorKind Sets
dist_sak_set octet2 octets sets = do
  dist_sak ← read_dist_sak octet2 octets
  ok (record sets { dist_sak = some dist_sak })

unfoldable pub read_set : ℕ → ℕ → ℕ → List ℕ → Sets → Outcome ErrorKind Sets
read_set type_ octet2 octet3 octets sets =
    if type_ == 1
    then live_set octets sets
    else if type_ == 2
    then potential_set octets sets
    else if type_ == 3
    then sak_use_set octet2 octet3 octets sets
    else if type_ == 4
    then dist_sak_set octet2 octets sets
    else ok sets

-- `while pos + 4 <= body.len()`
unfoldable pub read_sets : ℕ → List ℕ → Sets → Outcome ErrorKind Sets
read_sets zero octets sets = out_of_fuel
read_sets (suc fuel) octets sets =
    let more = (do
      type_ ← byte octets 0
      octet2 ← byte octets 1
      octet3 ← byte octets 2
      low ← byte octets 3
      refuse_if (ltb (length octets) (4 + twelve_bits octet3 low)) handshake_failed
      set ← slice octets 4 (4 + twelve_bits octet3 low)
      more_sets ← read_set type_ octet2 octet3 set sets
      read_sets fuel (drop (4 + align4 (twelve_bits octet3 low)) octets) more_sets) in
    if leb 4 (length octets) then more else ok sets

unfoldable pub parse_body : List ℕ → Outcome ErrorKind MkaPdu
parse_body body = do
  refuse_if (ltb (length body) 32) handshake_failed
  version ← byte body 0
  priority ← byte body 1
  flags ← byte body 2
  low ← byte body 3
  basic ← read_basic body version priority flags (twelve_bits flags low)
  sets ← read_sets (suc (length body)) (drop (4 + align4 (twelve_bits flags low)) body) no_sets
  ok (record {
    basic = basic;
    live_peers = sets.live_peers;
    potential_peers = sets.potential_peers;
    sak_use = sets.sak_use;
    dist_sak = sets.dist_sak;
  })
