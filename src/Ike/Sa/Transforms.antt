-- ===== src/Ike/Sa/Transforms.antt =====
-- Transforms and their attributes are read back from their encodings.
use Prim.Native.Nat.{bit_or}
use shuli.Base.{
  le→leb, if◌then◌else◌, ℕ, zero, suc, ◌+◌, ◌/◌, ◌%◌, ◌^◌, ◌≤◌, ◌<◌, ◌≡◌, refl, List, [], ◌∷◌, ◌++◌,
  arith, Bool, length, All, length-append, drop-length_append, append_assoc,
}
use shuli.Base.Outcome.{ok}
use shuli.Base.Bytes.{IsU16, from_be16-be16, be16, as_u16, slice-append}
use shuli.Ike.Types.{IpsecErrorKind, TransformAttribute, Transform}
use shuli.Ike.Sa.{
  is_empty, encode_attribute, encode_attributes, encode_transform, encode_transforms,
  decode_attribute, decode_attributes, decode_transform, decode_transforms,
}

-- The attribute type leaves the AF bit free, and the value's length fits its field.
abbrev pub IsWireAttribute : TransformAttribute → Type 0
IsWireAttribute a = (a.type_ < 2 ^ 15) × (length a.value < 2 ^ 16)

decode_attribute-long :
    (type_ : ℕ) (value rest : List ℕ)
    → type_ < 2 ^ 15
    → length value < 2 ^ 16
    → decode_attribute (be16 type_ ++ (be16 (as_u16 (length value)) ++ (value ++ rest)))
      ≡ ok (record { type_ = type_; value = value }, 4 + length value)
unfolding decode_attribute
decode_attribute-long type_ value rest t l = ground (
  arith,
  from_be16-be16 type_,
  from_be16-be16 (as_u16 (length value)),
  length-append value rest,
  slice-append {E = IpsecErrorKind}
      (type_ / 2 ^ 8 % 2 ^ 8
        ∷ type_ % 2 ^ 8
        ∷ as_u16 (length value) / 2 ^ 8 % 2 ^ 8
        ∷ as_u16 (length value) % 2 ^ 8
        ∷ [])
      value rest,
)

decode_attribute-short :
    (value rest : List ℕ)
    → length value ≡ 2
    → decode_attribute (be16 (bit_or 0x8000 14) ++ (value ++ rest))
      ≡ ok (record { type_ = 14; value = value }, 4)
unfolding decode_attribute
decode_attribute-short value rest l =
    ground (
      arith,
      length-append value rest,
      slice-append {E = IpsecErrorKind} (0x80 ∷ 14 ∷ []) value rest,
    )

decode_attribute-encode :
    (a : TransformAttribute) (rest : List ℕ)
    → IsWireAttribute a
    → decode_attribute (encode_attribute a ++ rest) ≡ ok (a, length (encode_attribute a))
unfolding encode_attribute
decode_attribute-encode a rest w =
    ground (arith, decode_attribute-short a.value rest, decode_attribute-long a.type_ a.value rest)

encode_attribute-size : (a : TransformAttribute) → 4 ≤ length (encode_attribute a)
unfolding encode_attribute
encode_attribute-size a = ground arith

-- One round of the loop over the attributes, on what an attribute's encoding begins.
decode_attributes-step :
    (fuel : ℕ) (a : TransformAttribute) (rest : List ℕ) (attrs : List TransformAttribute)
    → IsWireAttribute a
    → decode_attributes fuel rest ≡ ok attrs
    → decode_attributes (suc fuel) (encode_attribute a ++ rest) ≡ ok (a ∷ attrs)
unfolding decode_attributes
decode_attributes-step fuel a rest attrs w e =
    rw
      (le→leb 4 (length (encode_attribute a ++ rest))
        (omega (arith, length-append (encode_attribute a) rest, encode_attribute-size a)))
      (rw (decode_attribute-encode a rest w, drop-length_append (encode_attribute a) rest, e))

decode_attributes-encode :
    (attrs : List TransformAttribute) (fuel : ℕ)
    → All IsWireAttribute attrs
    → length (encode_attributes attrs) < fuel
    → decode_attributes fuel (encode_attributes attrs) ≡ ok attrs
unfolding encode_attributes
decode_attributes-encode attrs zero w h = absurd (omega arith)
decode_attributes-encode [] (suc fuel) w h = unfold decode_attributes in refl
decode_attributes-encode (a ∷ attrs) (suc fuel) (w, ws) h =
    decode_attributes-step fuel a (encode_attributes attrs) attrs w (
      decode_attributes-encode attrs fuel ws (
        omega (
          arith,
          length-append (encode_attribute a) (encode_attributes attrs),
          encode_attribute-size a,
        )))

pub record IsWireTransform (t : Transform) : Type 0 where
  pub id : IsU16 t.id
  pub attributes : All IsWireAttribute t.attributes
  pub length : 8 + length (encode_attributes t.attributes) < 2 ^ 16

decode_transform-encode :
    (last : Bool) (t : Transform) (rest : List ℕ)
    → IsWireTransform t
    → decode_transform (encode_transform last t ++ rest) ≡ ok (t, length (encode_transform last t))
unfolding decode_transform encode_transform
decode_transform-encode last t rest w =
    let body = encode_attributes t.attributes in
    ground (
      arith,
      from_be16-be16 t.id,
      from_be16-be16 (as_u16 (8 + length body)),
      length-append body rest,
      decode_attributes-encode t.attributes (suc (length body)) w.attributes (omega arith),
      slice-append {E = IpsecErrorKind}
          ((if last then 0 else 3)
            ∷ 0
            ∷ as_u16 (8 + length body) / 2 ^ 8 % 2 ^ 8
            ∷ as_u16 (8 + length body) % 2 ^ 8
            ∷ t.transform_type
            ∷ 0
            ∷ t.id / 2 ^ 8 % 2 ^ 8
            ∷ t.id % 2 ^ 8
            ∷ [])
          body rest,
    )

pub decode_transforms-encode :
    (ts : List Transform) (rest : List ℕ)
    → All IsWireTransform ts
    → decode_transforms (length ts) (encode_transforms ts ++ rest) ≡ ok ts
unfolding decode_transforms encode_transforms
decode_transforms-encode [] rest w = refl
decode_transforms-encode (t ∷ ts) rest (w, ws) = rw (
  append_assoc (encode_transform (is_empty ts) t) (encode_transforms ts) rest,
  decode_transform-encode (is_empty ts) t (encode_transforms ts ++ rest) w,
  drop-length_append (encode_transform (is_empty ts) t) (encode_transforms ts ++ rest),
  decode_transforms-encode ts rest ws,
)
