-- ===== src/Wired/Mka/Pdu/RoundTrip.antt =====
-- The body that `build_eapol` writes is parsed back, and the frame around it.
use shuli.Base.{
  ℕ, suc, ◌+◌, ◌-◌, ◌%◌, ◌≤◌, ◌≡◌, refl, sym, ◌∙◌, List, ◌∷◌, ◌++◌, arith, length, drop,
  length-append, length-replicate, drop-length_append, append_assoc, false, ltb,
}
use shuli.Base.Outcome.{ok}
use shuli.Base.Bytes.{byte, as_u8}
use shuli.Core.Types.{ErrorKind}
use shuli.Wired.Mka.Types.{MkaBasic, MkaPdu}
use shuli.Wired.Mka.Pdu.Read.{align4, twelve_bits, read_basic, read_sets, no_sets, parse_body}
use shuli.Wired.Mka.Pdu.Write.{basic_flags, write_basic, write_body}
use shuli.Wired.Mka.Pdu.Segments.{padding, pad4-octets}
use shuli.Wired.Mka.Pdu.Written.{
  peers_octets, use_octets, dist_octets, write_peers-octets, length-peers_octets,
  write_sak_use-octets, length-use_octets, write_dist_sak-octets, length-dist_octets,
}
use shuli.Wired.Mka.Pdu.Loop.{IsWireBasic, IsWirePdu, read_sets-live}
use shuli.Wired.Mka.Pdu.Basic.{
  basic_octets, flags-fields, length-basic_octets, read_basic-basic_octets, basic_octets-append,
}

-- The sets behind the basic one.
unfoldable sets_octets : MkaPdu → List ℕ
sets_octets pdu =
    peers_octets 1 pdu.live_peers
    ++ (peers_octets 2 pdu.potential_peers ++ (use_octets pdu.sak_use ++ dist_octets pdu.dist_sak))

write_basic-octets :
    (basic : MkaBasic)
    → write_basic basic ≡ basic_octets basic ++ padding (length (basic_octets basic))
unfolding write_basic basic_octets
write_basic-octets basic = pad4-octets _

-- In whole words, as `parse_body` skips it.
length-write_basic :
    (basic : MkaBasic)
    → IsWireBasic basic
    → (length (write_basic basic) ≡ 4 + align4 (28 + length basic.ckn))
      × (length (write_basic basic) % 4 ≡ 0)
unfolding align4
length-write_basic basic w =
    let own = length-basic_octets basic w in
    let n = length (basic_octets basic) in
    let zeros = length-replicate {A = ℕ} ((4 - n % 4) % 4) 0 in
    let long = length-append (basic_octets basic) (padding n) in
    rw (write_basic-octets basic) (omega arith, omega arith)

write_body-octets :
    (pdu : MkaPdu) → IsWirePdu pdu → write_body pdu ≡ write_basic pdu.basic ++ sets_octets pdu
unfolding write_body sets_octets
write_body-octets pdu w =
    let a = write_basic pdu.basic in
    let b = peers_octets 1 pdu.live_peers in
    let d = peers_octets 2 pdu.potential_peers in
    let e = use_octets pdu.sak_use in
    let (_, whole) = length-write_basic pdu.basic w.basic in
    let (live, _) = length-peers_octets 1 pdu.live_peers w.live_peers in
    let (potential, _) = length-peers_octets 2 pdu.potential_peers w.potential_peers in
    let (used, _) = length-use_octets pdu.sak_use w.sak_use in
    let whole2 : length (a ++ b) % 4 ≡ 0 = omega (arith, length-append a b) in
    let whole3 : length ((a ++ b) ++ d) % 4 ≡ 0 = omega (arith, length-append (a ++ b) d) in
    let whole4 : length (((a ++ b) ++ d) ++ e) % 4 ≡ 0 =
      omega (arith, length-append ((a ++ b) ++ d) e) in
    rw
      (
        write_peers-octets 1 pdu.live_peers a w.live_peers whole,
        write_peers-octets 2 pdu.potential_peers (a ++ b) w.potential_peers whole2,
        write_sak_use-octets pdu.sak_use ((a ++ b) ++ d) w.sak_use,
        write_dist_sak-octets pdu.dist_sak (((a ++ b) ++ d) ++ e) whole4,
      )
      (simp append_assoc)

-- The body has whole words, and the length of its frame fits a u16.
pub length-write_body :
    (pdu : MkaPdu)
    → IsWirePdu pdu
    → (length (write_body pdu) % 4 ≡ 0)
      × (length (write_body pdu) ≤ 20000)
      × (32 ≤ length (write_body pdu))
unfolding sets_octets align4
length-write_body pdu w =
    let a = write_basic pdu.basic in
    let b = peers_octets 1 pdu.live_peers in
    let d = peers_octets 2 pdu.potential_peers in
    let e = use_octets pdu.sak_use in
    let f = dist_octets pdu.dist_sak in
    let (long, whole) = length-write_basic pdu.basic w.basic in
    let (live, live_long) = length-peers_octets 1 pdu.live_peers w.live_peers in
    let (potential, potential_long) = length-peers_octets 2 pdu.potential_peers w.potential_peers in
    let (used, used_long) = length-use_octets pdu.sak_use w.sak_use in
    let (dist, dist_long) = length-dist_octets pdu.dist_sak w.dist_sak in
    let all = length-append a (b ++ (d ++ (e ++ f))) in
    let all2 = length-append b (d ++ (e ++ f)) in
    let all3 = length-append d (e ++ f) in
    let all4 = length-append e f in
    let ckn = w.basic.ckn in
    let live_short = w.live_short in
    let potential_short = w.potential_short in
    rw (write_body-octets pdu w) (omega arith, omega arith, omega arith)

-- What `parse_body` comes to by its parts.
parse_body-parts :
    (version priority flags low basic_len : ℕ) (rest body octets : List ℕ) (pdu : MkaPdu)
    → body ≡ version ∷ priority ∷ flags ∷ low ∷ rest
    → 32 ≤ length body
    → twelve_bits flags low ≡ basic_len
    → read_basic body version priority flags basic_len ≡ ok pdu.basic
    → drop (4 + align4 basic_len) body ≡ octets
    → read_sets (suc (length body)) octets no_sets
      ≡ ok (record {
        live_peers = pdu.live_peers;
        potential_peers = pdu.potential_peers;
        sak_use = pdu.sak_use;
        dist_sak = pdu.dist_sak;
      })
    → parse_body body ≡ ok pdu
unfolding parse_body
parse_body-parts version priority flags low basic_len rest body octets pdu e long len basic left
      sets =
    let b0 : byte {E = ErrorKind} body 0 ≡ ok version = rw e refl in
    let b1 : byte {E = ErrorKind} body 1 ≡ ok priority = rw e refl in
    let b2 : byte {E = ErrorKind} body 2 ≡ ok flags = rw e refl in
    let b3 : byte {E = ErrorKind} body 3 ≡ ok low = rw e refl in
    let enough : ltb (length body) 32 ≡ false = ground arith in
    rw (enough, b0, b1, b2, b3, len, basic, left, sets) refl

-- An MKPDU that fits the wire format is read back from its body.
pub parse_body-write_body : (pdu : MkaPdu) → IsWirePdu pdu → parse_body (write_body pdu) ≡ ok pdu
unfolding basic_flags sets_octets
parse_body-write_body pdu w =
    let octets = basic_octets pdu.basic in
    let basic = write_basic pdu.basic in
    let zeros = padding (length octets) in
    let sets = sets_octets pdu in
    let own = length-basic_octets pdu.basic w.basic in
    let (whole, _) = length-write_basic pdu.basic w.basic in
    let written = write_body-octets pdu w in
    let joined : basic ++ sets ≡ octets ++ (zeros ++ sets) =
      rw (write_basic-octets pdu.basic) (append_assoc octets zeros sets) in
    let read = read_basic-basic_octets pdu.basic (zeros ++ sets) w.basic in
    let left : drop (4 + align4 (28 + length pdu.basic.ckn)) (basic ++ sets) ≡ sets =
      rw (sym whole) (drop-length_append basic sets) in
    let long : 32 ≤ length (basic ++ sets) =
      rw joined (omega (arith, own, length-append octets (zeros ++ sets))) in
    let (_, _, _, len) =
      flags-fields pdu.basic.key_server pdu.basic.macsec_desired pdu.basic.macsec_capability
        (28 + length pdu.basic.ckn) (basic_flags pdu.basic (28 + length pdu.basic.ckn))
        w.basic.capability (omega (arith, w.basic.ckn)) refl in
    let header = joined ∙ basic_octets-append pdu.basic (zeros ++ sets) in
    rw written (
      parse_body-parts pdu.basic.version pdu.basic.priority
        (basic_flags pdu.basic (28 + length pdu.basic.ckn)) (as_u8 (28 + length pdu.basic.ckn))
        (28 + length pdu.basic.ckn) _ (basic ++ sets) sets pdu header long len (rw joined read) left
        (read_sets-live (suc (length (basic ++ sets))) pdu (omega arith) w))
