-- ===== src/Ike/Sa.antt =====
-- `encode_sa` and `decode_sa` of ipsec/ikev2/codec.rs: the proposals of an SA payload. The source
-- walks a buffer by an offset; here the list is what the offset has not passed, so that
-- `offset + n > body.len()` is `length rest < n`. A loop that pushes onto a vector returns the list.
pub mod Transforms
pub mod RoundTrip
pub mod Total
use Prim.Native.Nat.{bit_or}
use shuli.Base.{
  ℕ, zero, suc, ◌+◌, ◌-◌, ◌%◌, ◌^◌, Bool, true, false, List, [], ◌∷◌, ◌++◌, length, drop, ltb, leb,
  ◌&&◌, ◌||◌, ◌==◌, if◌then◌else◌,
}
use shuli.Base.Outcome.{Outcome, ok, out_of_fuel, refuse_if, ◌>>=◌, ◌>>◌}
use shuli.Base.Bytes.{byte, u16_at, slice, be16, has_bit, as_u8, as_u16}
use shuli.Ike.Types.{IpsecErrorKind, ike, TransformAttribute, Transform, Proposal}

abbrev pub is_empty {ℓ} : {A : Type ℓ} → List A → Bool
is_empty [] = true
is_empty (x ∷ xs) = false

-- A key length (attribute 14 with a two-octet value) has the short form, with the AF bit set.
unfoldable pub encode_attribute : TransformAttribute → List ℕ
encode_attribute attribute =
    if attribute.type_ == 14 && length attribute.value == 2
    then be16 (bit_or 0x8000 attribute.type_) ++ attribute.value
    else be16 attribute.type_ ++ (be16 (as_u16 (length attribute.value)) ++ attribute.value)

unfoldable pub encode_attributes : List TransformAttribute → List ℕ
encode_attributes [] = []
encode_attributes (attribute ∷ rest) = encode_attribute attribute ++ encode_attributes rest

unfoldable pub encode_transform : Bool → Transform → List ℕ
encode_transform last transform =
    let attributes = encode_attributes transform.attributes in
    ((if last then 0 else 3) ∷ 0 ∷ [])
    ++ (be16 (as_u16 (8 + length attributes))
        ++ ((transform.transform_type ∷ 0 ∷ []) ++ (be16 transform.id ++ attributes)))

-- The last transform is the one at `transforms.len() - 1`.
unfoldable pub encode_transforms : List Transform → List ℕ
encode_transforms [] = []
encode_transforms (transform ∷ rest) =
    encode_transform (is_empty rest) transform ++ encode_transforms rest

-- `proposal_body` of the source, behind its check of the SPI.
unfoldable pub proposal_body : Proposal → List ℕ
proposal_body proposal =
    (proposal.number
      ∷ proposal.protocol
      ∷ as_u8 (length proposal.spi)
      ∷ as_u8 (length proposal.transforms)
      ∷ [])
    ++ (proposal.spi ++ encode_transforms proposal.transforms)

unfoldable pub encode_proposal : Bool → Proposal → Outcome IpsecErrorKind (List ℕ)
encode_proposal last proposal = do
  refuse_if (ltb 255 (length proposal.spi)) ike
  let body = proposal_body proposal
  let proposal_len = 8 + length proposal.spi + (length body - 4 - length proposal.spi)
  ok (((if last then 0 else 2) ∷ 0 ∷ []) ++ (be16 (as_u16 proposal_len) ++ body))

unfoldable pub encode_sa : List Proposal → Outcome IpsecErrorKind (List ℕ)
encode_sa [] = ok []
encode_sa (proposal ∷ rest) = do
  head ← encode_proposal (is_empty rest) proposal
  tail ← encode_sa rest
  ok (head ++ tail)

-- One attribute, and the octets that it takes. `type_ & 0x7fff` is `type_ % 2 ^ 15`.
unfoldable pub decode_attribute : List ℕ → Outcome IpsecErrorKind (TransformAttribute × ℕ)
decode_attribute rest = do
  word ← u16_at rest 0
  let short = do
    refuse_if (ltb (length rest) 4) ike
    value ← slice rest 2 4
    ok (record { type_ = word % 2 ^ 15; value = value }, 4)
  let long = do
    len ← u16_at rest 2
    refuse_if (ltb (length rest) (4 + len)) ike
    value ← slice rest 4 (4 + len)
    ok (record { type_ = word % 2 ^ 15; value = value }, 4 + len)
  if has_bit word 15 then short else long

-- `while attr_cursor + 4 <= cursor + transform_len`
unfoldable pub decode_attributes : ℕ → List ℕ → Outcome IpsecErrorKind (List TransformAttribute)
decode_attributes zero rest = out_of_fuel
decode_attributes (suc fuel) rest =
    let more = (do
      (attribute, size) ← decode_attribute rest
      attributes ← decode_attributes fuel (drop size rest)
      ok (attribute ∷ attributes)) in
    if leb 4 (length rest) then more else ok []

-- One transform, and the octets that it takes.
unfoldable pub decode_transform : List ℕ → Outcome IpsecErrorKind (Transform × ℕ)
decode_transform rest = do
  refuse_if (ltb (length rest) 8) ike
  transform_len ← u16_at rest 2
  refuse_if (ltb transform_len 8 || ltb (length rest) transform_len) ike
  transform_type ← byte rest 4
  id ← u16_at rest 6
  region ← slice rest 8 transform_len
  attributes ← decode_attributes (suc (length region)) region
  ok (record { transform_type = transform_type; id = id; attributes = attributes }, transform_len)

-- `for _ in 0..transform_count`
unfoldable pub decode_transforms : ℕ → List ℕ → Outcome IpsecErrorKind (List Transform)
decode_transforms zero rest = ok []
decode_transforms (suc count) rest = do
  (transform, size) ← decode_transform rest
  transforms ← decode_transforms count (drop size rest)
  ok (transform ∷ transforms)

-- From `&body[offset..offset + length]` on, in `decode_sa`.
unfoldable pub decode_proposal_slice : List ℕ → Outcome IpsecErrorKind Proposal
decode_proposal_slice proposal = do
  number ← byte proposal 4
  protocol ← byte proposal 5
  spi_len ← byte proposal 6
  transform_count ← byte proposal 7
  refuse_if (ltb (length proposal) (8 + spi_len)) ike
  spi ← slice proposal 8 (8 + spi_len)
  transforms ← decode_transforms transform_count (drop (8 + spi_len) proposal)
  ok (record { number = number; protocol = protocol; spi = spi; transforms = transforms })

-- One proposal, its first octet (0 in the last proposal) and its length.
unfoldable pub decode_proposal : List ℕ → Outcome IpsecErrorKind (Proposal × ℕ × ℕ)
decode_proposal rest = do
  last ← byte rest 0
  len ← u16_at rest 2
  refuse_if (ltb len 8 || ltb (length rest) len) ike
  octets ← slice rest 0 len
  proposal ← decode_proposal_slice octets
  ok (proposal, last, len)

-- `while offset + 8 <= body.len()`, with `break` after a last proposal.
unfoldable pub decode_sa_loop : ℕ → List ℕ → Outcome IpsecErrorKind (List Proposal)
decode_sa_loop zero rest = out_of_fuel
decode_sa_loop (suc fuel) rest =
    let more = (do
      (proposal, last, len) ← decode_proposal rest
      let others = do proposals ← decode_sa_loop fuel (drop len rest); ok (proposal ∷ proposals)
      if last == 0 then ok (proposal ∷ []) else others) in
    if leb 8 (length rest) then more else ok []

-- Each round of a loop takes octets, so the buffer's length is fuel enough.
unfoldable pub decode_sa : List ℕ → Outcome IpsecErrorKind (List Proposal)
decode_sa body = decode_sa_loop (suc (length body)) body
