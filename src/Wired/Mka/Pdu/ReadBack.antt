-- ===== src/Wired/Mka/Pdu/ReadBack.antt =====
-- Each parameter set is read back from what is written for it.
use shuli.Base.{
  ℕ, ◌+◌, ◌*◌, ◌/◌, ◌%◌, ◌<◌, ◌≡◌, refl, sym, ap, ◌∙◌, some, List, [], ◌++◌, arith, length,
  length-append, append_assoc, Bool, true, false, leb,
}
use shuli.Base.Outcome.{ok}
use shuli.Base.Bytes.{be32, has_bit, u32_at, from_be32-be32}
use shuli.Base.Fields.{slice-between, u32_at-append}
use shuli.Core.Types.{ErrorKind}
use shuli.Wired.Mka.Types.{KeyId, SakUse, DistSak}
use shuli.Wired.Mka.Pdu.Read.{
  Sets, read_key_id, read_sak_use, read_cipher_suite, read_suite_and_kn, wrapped_start,
  read_dist_sak, sak_use_set, dist_sak_set, read_set,
}
use shuli.Wired.Mka.Pdu.Write.{bit, write_key_id, sak_use_octet2, sak_use_flags, high_bits}
use shuli.Wired.Mka.Pdu.Wire.{IsWireKeyId, IsWireSakUse, IsWireDistSak}

-- What fits its place on the wire.
-- A key identifier behind the octets of `front`.
read_key_id-write_key_id :
    (front : List ℕ) (ki : KeyId) (back : List ℕ)
    → IsWireKeyId ki
    → read_key_id (front ++ (write_key_id ki ++ back)) (length front) ≡ ok ki
unfolding read_key_id write_key_id
read_key_id-write_key_id front ki back w =
    let joined : front ++ ((ki.mi ++ be32 ki.kn) ++ back)
        ≡ front ++ (ki.mi ++ (be32 ki.kn ++ back)) =
      ap (λ xs. front ++ xs) (append_assoc ki.mi (be32 ki.kn) back) in
    let joined2 : front ++ (ki.mi ++ (be32 ki.kn ++ back))
        ≡ (front ++ ki.mi) ++ (be32 ki.kn ++ back) =
      sym (append_assoc front ki.mi (be32 ki.kn ++ back)) in
    let mi =
      slice-between {E = ErrorKind} front ki.mi (be32 ki.kn ++ back) (length front)
        (length front + 12) refl (omega (arith, w.mi)) in
    let kn =
      u32_at-append {E = ErrorKind} (front ++ ki.mi) ki.kn back (length front + 12) w.kn
        (omega (arith, w.mi, length-append front ki.mi)) in
    rw (joined, mi, joined2, kn) refl

unfoldable pub sak_use_octets : SakUse → List ℕ
sak_use_octets sak_use =
    write_key_id sak_use.latest_ki
    ++ (be32 sak_use.latest_llpn ++ (write_key_id sak_use.old_ki ++ be32 sak_use.old_llpn))

-- The six fields of the second octet, and the three flags of the third.
octet2-fields :
    (latest_an : ℕ) (latest_tx latest_rx : Bool) (old_an : ℕ) (old_tx old_rx : Bool) (octet2 : ℕ)
    → latest_an < 4
    → old_an < 4
    → octet2
      ≡ latest_an % 4 * 64
        + bit latest_tx * 32
        + bit latest_rx * 16
        + old_an % 4 * 4
        + bit old_tx * 2
        + bit old_rx
    → (octet2 / 64 % 4 ≡ latest_an)
      × (has_bit octet2 5 ≡ latest_tx)
      × (has_bit octet2 4 ≡ latest_rx)
      × (octet2 / 4 % 4 ≡ old_an)
      × (has_bit octet2 1 ≡ old_tx)
      × (has_bit octet2 0 ≡ old_rx)
unfolding bit
octet2-fields latest_an latest_tx latest_rx old_an old_tx old_rx octet2 h k e = ground arith

octet3-flags :
    (plain_tx plain_rx delay_protect : Bool) (octet3 : ℕ)
    → octet3 ≡ bit plain_tx * 128 + bit plain_rx * 64 + bit delay_protect * 16 + 0
    → (has_bit octet3 7 ≡ plain_tx)
      × (has_bit octet3 6 ≡ plain_rx)
      × (has_bit octet3 4 ≡ delay_protect)
unfolding bit
octet3-flags plain_tx plain_rx delay_protect octet3 e = ground arith

length-write_key_id : (ki : KeyId) → IsWireKeyId ki → length (write_key_id ki) ≡ 16
unfolding write_key_id
length-write_key_id ki w = omega (arith, w.mi, length-append ki.mi (be32 ki.kn))

pub length-sak_use_octets :
    (sak_use : SakUse) → IsWireSakUse sak_use → length (sak_use_octets sak_use) ≡ 40
unfolding sak_use_octets
length-sak_use_octets sak_use w = omega (
  arith,
  length-write_key_id sak_use.latest_ki w.latest_ki,
  length-write_key_id sak_use.old_ki w.old_ki,
  length-append (write_key_id sak_use.latest_ki)
      (be32 sak_use.latest_llpn ++ (write_key_id sak_use.old_ki ++ be32 sak_use.old_llpn)),
  length-append (write_key_id sak_use.old_ki) (be32 sak_use.old_llpn),
)

-- The four fields of the body.
sak_use_octets-fields :
    (sak_use : SakUse)
    → IsWireSakUse sak_use
    → (read_key_id (sak_use_octets sak_use) 0 ≡ ok sak_use.latest_ki)
      × (read_key_id (sak_use_octets sak_use) 20 ≡ ok sak_use.old_ki)
      × (u32_at {E = ErrorKind} (sak_use_octets sak_use) 16 ≡ ok sak_use.latest_llpn)
      × (u32_at {E = ErrorKind} (sak_use_octets sak_use) 36 ≡ ok sak_use.old_llpn)
unfolding sak_use_octets
sak_use_octets-fields sak_use w =
    let a = write_key_id sak_use.latest_ki in
    let b = be32 sak_use.latest_llpn in
    let d = write_key_id sak_use.old_ki in
    let e = be32 sak_use.old_llpn in
    let long_a = length-write_key_id sak_use.latest_ki w.latest_ki in
    let long_d = length-write_key_id sak_use.old_ki w.old_ki in
    let long_ab : length (a ++ b) ≡ 20 = omega (arith, length-append a b) in
    let long_abd : length ((a ++ b) ++ d) ≡ 36 = omega (arith, length-append (a ++ b) d) in
    let ab_de : a ++ (b ++ (d ++ e)) ≡ (a ++ b) ++ (d ++ e) = sym (append_assoc a b (d ++ e)) in
    let abd_e : (a ++ b) ++ (d ++ e) ≡ ((a ++ b) ++ d) ++ e = sym (append_assoc (a ++ b) d e) in
    (
      read_key_id-write_key_id [] sak_use.latest_ki (b ++ (d ++ e)) w.latest_ki,
      rw ab_de (
          ap (read_key_id ((a ++ b) ++ (d ++ e))) (sym long_ab)
          ∙ read_key_id-write_key_id (a ++ b) sak_use.old_ki e w.old_ki),
      u32_at-append a sak_use.latest_llpn (d ++ e) 16 w.latest_llpn (sym long_a),
      rw (ab_de, abd_e)
          (u32_at-append ((a ++ b) ++ d) sak_use.old_llpn [] 36 w.old_llpn (sym long_abd)),
    )

pub read_set-sak_use :
    (sak_use : SakUse) (sets : Sets)
    → IsWireSakUse sak_use
    → read_set 3
        (sak_use_octet2 sak_use)
        (sak_use_flags sak_use + high_bits 40)
        (sak_use_octets sak_use)
        sets
      ≡ ok (record sets { sak_use = some sak_use })
unfolding read_set sak_use_set read_sak_use sak_use_octet2 sak_use_flags high_bits
read_set-sak_use sak_use sets w =
    let (latest_ki, old_ki, latest_llpn, old_llpn) = sak_use_octets-fields sak_use w in
    let long : leb 40 (length (sak_use_octets sak_use)) ≡ true =
      rw (length-sak_use_octets sak_use w) refl in
    let (latest_an, latest_tx, latest_rx, old_an, old_tx, old_rx) =
      octet2-fields sak_use.latest_an sak_use.latest_tx sak_use.latest_rx sak_use.old_an
        sak_use.old_tx sak_use.old_rx (sak_use_octet2 sak_use) w.latest_an w.old_an refl in
    let (plain_tx, plain_rx, delay_protect) =
      octet3-flags sak_use.plain_tx sak_use.plain_rx sak_use.delay_protect
        (sak_use_flags sak_use + high_bits 40) refl in
    rw
      (
        long, latest_ki, old_ki, latest_llpn, old_llpn, latest_an, latest_tx, latest_rx, old_an,
        old_tx, old_rx, plain_tx, plain_rx, delay_protect,
      )
      refl

pub read_set-dist_sak :
    (dist_sak : DistSak) (octet3 : ℕ) (sets : Sets)
    → IsWireDistSak dist_sak
    → read_set 4
        (dist_sak.an % 4 * 64 + dist_sak.confidentiality_offset % 4 * 16)
        octet3
        (be32 dist_sak.kn ++ dist_sak.wrapped_sak)
        sets
      ≡ ok (record sets { dist_sak = some dist_sak })
unfolding read_set dist_sak_set read_dist_sak read_suite_and_kn read_cipher_suite wrapped_start
read_set-dist_sak dist_sak octet3 sets w =
    let an : (dist_sak.an % 4 * 64 + dist_sak.confidentiality_offset % 4 * 16) / 64 % 4
        ≡ dist_sak.an =
      omega (arith, w.an, w.offset) in
    let offset : (dist_sak.an % 4 * 64 + dist_sak.confidentiality_offset % 4 * 16) / 16 % 4
        ≡ dist_sak.confidentiality_offset =
      omega (arith, w.an, w.offset) in
    let kn = from_be32-be32 dist_sak.kn w.kn in
    let octets = be32 dist_sak.kn ++ dist_sak.wrapped_sak in
    let four : leb 4 (length octets) ≡ true = ground arith in
    let no_suite : leb 36 (length octets) ≡ false = ground (arith, w.short) in
    rw (four, no_suite, kn, an, offset, four)
      (ap (λ suite. ok (record sets { dist_sak = some (record dist_sak { cipher_suite = suite }) }))
        (sym w.suite))
