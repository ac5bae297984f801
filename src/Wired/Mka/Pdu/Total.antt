-- ===== src/Wired/Mka/Pdu/Total.antt =====
-- Any frame at all is parsed or refused.
use shuli.Base.{ℕ, zero, suc, ◌+◌, ◌≤◌, ◌<◌, List, arith, length, length-drop}
use shuli.Base.Outcome.{Returns, Returns-if, Returns-cases}
use shuli.Base.Bytes.{returns_rules, slice_to}
use shuli.Wired.Mka.Kdf.{Primitives}
use shuli.Wired.Mka.Pdu.Read.{
  read_peers, read_basic, read_key_id, read_sak_use, read_cipher_suite, read_suite_and_kn,
  read_dist_sak, Sets, live_set, potential_set, sak_use_set, dist_sak_set, read_set, read_sets,
  parse_body,
}
use shuli.Wired.Mka.Pdu.Frame.{parse_mka, parse}

Returns-read_peers : (count : ℕ) (octets : List ℕ) → Returns (read_peers count octets)
unfolding read_peers slice_to
Returns-read_peers zero octets = tt
Returns-read_peers (suc count) octets =
    search (Returns-cases, returns_rules, Returns-read_peers count, arith) depth 40

Returns-read_basic :
    (body : List ℕ) (version priority flags basic_len : ℕ)
    → 32 ≤ length body
    → Returns (read_basic body version priority flags basic_len)
unfolding read_basic
Returns-read_basic body version priority flags basic_len h = search (returns_rules, arith) depth 40

Returns-read_key_id :
    (octets : List ℕ) (start : ℕ) → start + 16 ≤ length octets → Returns (read_key_id octets start)
unfolding read_key_id
Returns-read_key_id octets start h = search (returns_rules, arith) depth 40

Returns-read_sak_use :
    (octet2 octet3 : ℕ) (octets : List ℕ)
    → 40 ≤ length octets
    → Returns (read_sak_use octet2 octet3 octets)
unfolding read_sak_use
Returns-read_sak_use octet2 octet3 octets h =
    search (returns_rules, Returns-read_key_id, arith) depth 40

Returns-read_cipher_suite : (octets : List ℕ) → Returns (read_cipher_suite octets)
unfolding read_cipher_suite
Returns-read_cipher_suite octets = search (Returns-cases, returns_rules, arith) depth 40

Returns-read_suite_and_kn : (octets : List ℕ) → Returns (read_suite_and_kn octets)
unfolding read_suite_and_kn
Returns-read_suite_and_kn octets =
    search (Returns-cases, returns_rules, Returns-read_cipher_suite, arith) depth 40

Returns-dist_sak_set :
    (octet2 : ℕ) (octets : List ℕ) (sets : Sets) → Returns (dist_sak_set octet2 octets sets)
unfolding dist_sak_set read_dist_sak
Returns-dist_sak_set octet2 octets sets = search (returns_rules, Returns-read_suite_and_kn) depth 40

Returns-live_set : (octets : List ℕ) (sets : Sets) → Returns (live_set octets sets)
unfolding live_set
Returns-live_set octets sets = search (returns_rules, Returns-read_peers) depth 40

Returns-potential_set : (octets : List ℕ) (sets : Sets) → Returns (potential_set octets sets)
unfolding potential_set
Returns-potential_set octets sets = search (returns_rules, Returns-read_peers) depth 40

Returns-sak_use_set :
    (octet2 octet3 : ℕ) (octets : List ℕ) (sets : Sets)
    → Returns (sak_use_set octet2 octet3 octets sets)
unfolding sak_use_set
Returns-sak_use_set octet2 octet3 octets sets =
    search (Returns-cases, returns_rules, Returns-read_sak_use, arith) depth 40

Returns-read_set :
    (type_ octet2 octet3 : ℕ) (octets : List ℕ) (sets : Sets)
    → Returns (read_set type_ octet2 octet3 octets sets)
unfolding read_set
Returns-read_set type_ octet2 octet3 octets sets =
    search
      (
        Returns-if, Returns-live_set, Returns-potential_set, Returns-sak_use_set,
        Returns-dist_sak_set,
      )
      depth 40

Returns-read_sets :
    (fuel : ℕ) (octets : List ℕ) (sets : Sets)
    → length octets < fuel
    → Returns (read_sets fuel octets sets)
unfolding read_sets
Returns-read_sets zero octets sets h = absurd (omega arith)
Returns-read_sets (suc fuel) octets sets h =
    search
      (Returns-cases, returns_rules, Returns-read_set, Returns-read_sets fuel, arith, length-drop)
      depth 40

Returns-parse_body : (body : List ℕ) → Returns (parse_body body)
unfolding parse_body
Returns-parse_body body =
    search (returns_rules, Returns-read_basic, Returns-read_sets, arith, length-drop) depth 40

module _ (c : Primitives) where
  Returns-parse_mka :
      (eapol da sa ick : List ℕ) → 4 ≤ length eapol → Returns (parse_mka c eapol da sa ick)
  unfolding parse_mka
  Returns-parse_mka eapol da sa ick h = search (returns_rules, Returns-parse_body, arith) depth 40

  -- Any frame is parsed, passed over or refused, whatever the crate for AES-CMAC computes: there is
  -- no read out of range, and the loop over the parameter sets ends.
  pub Returns-parse : (eapol da sa ick : List ℕ) → Returns (parse c eapol da sa ick)
  unfolding parse
  Returns-parse eapol da sa ick =
      search (Returns-cases, returns_rules, Returns-parse_mka, arith) depth 40
