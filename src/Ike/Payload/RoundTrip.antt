-- ===== src/Ike/Payload/RoundTrip.antt =====
-- `decode_payload` reads back the body of every payload that fits the wire format.
use shuli.Base.{
  inl, inr, if◌then◌else◌, ℕ, zero, suc, ◌*◌, ◌/◌, ◌%◌, ◌^◌, ◌≤◌, ◌<◌, ◌≡◌, refl, List, [], ◌∷◌,
  ◌++◌, arith, length, drop, All, length-append, drop-length_append, append_assoc, true, false, ◌⊎◌,
  ◌==◌,
}
use shuli.Base.Outcome.{ok}
use shuli.Base.Bytes.{
  IsU16, IsU32, from_be16-be16, from_be32-be32, be16, be32, be64, as_u16, slice-append, slice_from,
}
use shuli.Ike.Types.{
  IpsecErrorKind, ConfigAttribute, Payload, sa, ke, id, cert, cert_req, auth, nonce, notify, delete,
  ts, configuration, eap_packet, encrypted, other,
}
use shuli.Ike.Sa.RoundTrip.{IsWireProposal, decode_sa-encode_sa}
use shuli.Ike.Selector.RoundTrip.{IsWireSelector, decode_ts-encode_ts}
use shuli.Ike.Payload.{
  payload_type, encode_spis, encode_config, encode_body, decode_spi, decode_spis, decode_delete,
  decode_notify, decode_config, decode_plain, decode_ke, decode_payload,
}

abbrev pub IsWireConfig : ConfigAttribute → Type 0
IsWireConfig a = (a.type_ < 2 ^ 15) × (length a.value < 2 ^ 16)

-- The payload types that `decode_payload` has an arm for; 43 is not among them.
abbrev pub IsKnownType : ℕ → Type 0
IsKnownType kind = ((33 ≤ kind) × (kind ≤ 42)) ⊎ ((44 ≤ kind) × (kind ≤ 48))

-- The sizes of an SPI.
abbrev pub IsSpiSize : ℕ → Type 0
IsSpiSize spi_size = (spi_size ≡ 4) ⊎ (spi_size ≡ 8)

-- The fields fit their places on the wire, and a `delete` has SPIs of 4 or 8 octets, or none, of no
-- octets. An `encrypted` payload keeps its `next`, and is taken
-- by `decode_chain` with the next type of its own header.
abbrev pub IsWirePayload : Payload → Type 0
IsWirePayload (sa proposals) = All IsWireProposal proposals
IsWirePayload (ke group octets) = IsU16 group
IsWirePayload (notify protocol spi notify_type octets) = (length spi ≤ 255) × IsU16 notify_type
IsWirePayload (delete protocol spi_size spis) =
    (IsSpiSize spi_size ⊎ ((spi_size ≡ 0) × (spis ≡ []))) × IsU16 (length spis) × All IsU32 spis
IsWirePayload (ts initiator selectors) = (length selectors ≤ 255) × All IsWireSelector selectors
IsWirePayload (configuration attributes) = All IsWireConfig attributes
IsWirePayload (other kind octets) = ¬ IsKnownType kind
IsWirePayload _ = Unit {0}

abbrev spi_octets : ℕ → ℕ → List ℕ
spi_octets spi_size spi = if spi_size == 4 then be32 spi else be64 spi

abbrev spis_octets : ℕ → List ℕ → List ℕ
spis_octets spi_size [] = []
spis_octets spi_size (spi ∷ spis) = spi_octets spi_size spi ++ spis_octets spi_size spis

encode_spis-octets :
    (spi_size : ℕ) (spis : List ℕ)
    → IsSpiSize spi_size
    → encode_spis spi_size spis ≡ ok (spis_octets spi_size spis)
unfolding encode_spis
encode_spis-octets spi_size [] h = refl
encode_spis-octets spi_size (spi ∷ spis) h = ground (arith, encode_spis-octets spi_size spis h)

decode_spi-octets :
    (spi_size spi : ℕ) (rest : List ℕ)
    → IsSpiSize spi_size
    → IsU32 spi
    → (decode_spi spi_size (spi_octets spi_size spi ++ rest) ≡ ok spi)
      × (drop spi_size (spi_octets spi_size spi ++ rest) ≡ rest)
unfolding decode_spi
decode_spi-octets spi_size spi rest (inl e) u = rw e (ground (arith, from_be32-be32 spi u))
decode_spi-octets spi_size spi rest (inr e) u = rw e (ground (arith, from_be32-be32 spi u))

decode_spis-octets :
    (spi_size : ℕ) (spis : List ℕ)
    → IsSpiSize spi_size
    → All IsU32 spis
    → decode_spis (length spis) spi_size (spis_octets spi_size spis) ≡ ok spis
unfolding decode_spis
decode_spis-octets spi_size [] h u = refl
decode_spis-octets spi_size (spi ∷ spis) h (u, us) =
    let (this, others) = decode_spi-octets spi_size spi (spis_octets spi_size spis) h u in
    rw (this, others, decode_spis-octets spi_size spis h us)

length-spis_octets :
    (spi_size : ℕ) (spis : List ℕ)
    → IsSpiSize spi_size
    → length (spis_octets spi_size spis) ≡ length spis * spi_size
length-spis_octets spi_size [] h = omega arith
length-spis_octets spi_size (spi ∷ spis) h = ground (arith, length-spis_octets spi_size spis h)

decode_delete-octets :
    (protocol spi_size : ℕ) (spis : List ℕ)
    → IsSpiSize spi_size
    → IsU16 (length spis)
    → All IsU32 spis
    → decode_delete
        (protocol ∷ spi_size ∷ (be16 (as_u16 (length spis)) ++ spis_octets spi_size spis))
      ≡ ok (delete protocol spi_size spis)
unfolding decode_delete
decode_delete-octets protocol spi_size spis h n u = ground (
  arith,
  from_be16-be16 (as_u16 (length spis)),
  decode_spis-octets spi_size spis h u,
  length-spis_octets spi_size spis h,
)

decode_notify-octets :
    (protocol : ℕ) (spi : List ℕ) (notify_type : ℕ) (octets : List ℕ)
    → length spi ≤ 255
    → IsU16 notify_type
    → decode_notify (protocol ∷ (length spi % 2 ^ 8) ∷ (be16 notify_type ++ (spi ++ octets)))
      ≡ ok (notify protocol spi notify_type octets)
unfolding decode_notify slice_from
decode_notify-octets protocol spi notify_type octets h u = ground (
  arith,
  from_be16-be16 notify_type u,
  length-append spi octets,
  drop-length_append spi octets,
  slice-append {E = IpsecErrorKind}
      (protocol ∷ (length spi % 2 ^ 8) ∷ notify_type / 2 ^ 8 % 2 ^ 8 ∷ notify_type % 2 ^ 8 ∷ []) spi
      octets,
)

abbrev config_octets : ConfigAttribute → List ℕ
config_octets a = be16 a.type_ ++ (be16 (as_u16 (length a.value)) ++ a.value)

abbrev configs_octets : List ConfigAttribute → List ℕ
configs_octets [] = []
configs_octets (a ∷ rest) = config_octets a ++ configs_octets rest

encode_config-octets :
    (attributes : List ConfigAttribute)
    → All IsWireConfig attributes
    → encode_config attributes ≡ ok (configs_octets attributes)
unfolding encode_config
encode_config-octets [] w = refl
encode_config-octets (a ∷ rest) (w, ws) =
    ground (arith, encode_config-octets rest ws, append_assoc a.value (configs_octets rest))

decode_config-step :
    (fuel : ℕ) (a : ConfigAttribute) (rest : List ℕ) (attributes : List ConfigAttribute)
    → IsWireConfig a
    → decode_config fuel rest ≡ ok attributes
    → decode_config (suc fuel) (config_octets a ++ rest) ≡ ok (a ∷ attributes)
unfolding decode_config
decode_config-step fuel a rest attributes (t, l) e = ground (
  arith,
  from_be16-be16 a.type_,
  from_be16-be16 (as_u16 (length a.value)),
  length-append a.value rest,
  drop-length_append a.value rest,
  slice-append {E = IpsecErrorKind}
      (a.type_ / 2 ^ 8 % 2 ^ 8
        ∷ a.type_ % 2 ^ 8
        ∷ as_u16 (length a.value) / 2 ^ 8 % 2 ^ 8
        ∷ as_u16 (length a.value) % 2 ^ 8
        ∷ [])
      a.value rest,
)

decode_config-octets :
    (attributes : List ConfigAttribute) (fuel : ℕ)
    → All IsWireConfig attributes
    → length (configs_octets attributes) < fuel
    → decode_config fuel (configs_octets attributes) ≡ ok attributes
decode_config-octets attributes zero w h = absurd (omega arith)
decode_config-octets [] (suc fuel) w h = unfold decode_config in refl
decode_config-octets (a ∷ rest) (suc fuel) (w, ws) h =
    decode_config-step fuel a (configs_octets rest) rest w (
      decode_config-octets rest fuel ws
        (omega (arith, length-append a.value (configs_octets rest))))

-- An unknown type falls through every arm.
decode_payload-other :
    (kind : ℕ) (octets : List ℕ) (next : ℕ)
    → ¬ IsKnownType kind
    → decode_payload kind octets next ≡ ok (other kind octets)
unfolding decode_payload
decode_payload-other kind octets next h = ground arith

-- What `decode_payload` makes of a payload whose header names `next`.
abbrev pub with_next : ℕ → Payload → Payload
with_next next (encrypted n octets) = encrypted next octets
with_next next p = p

-- Every payload that fits the wire format is encoded, and its body is decoded again to it, except
-- that an Encrypted payload takes the next type that its generic header names in place of its own.
pub decode_payload-encode_body :
    (p : Payload) (next : ℕ)
    → IsWirePayload p
    → (body : List ℕ) × (encode_body p ≡ ok body)
      × (decode_payload (payload_type p) body next ≡ ok (with_next next p))
unfolding encode_body decode_payload payload_type encode_spis decode_spis
decode_payload-encode_body (sa proposals) next w =
    let (body, e, d) = decode_sa-encode_sa proposals w in (body, e, rw d)
decode_payload-encode_body (ke group octets) next w =
    (_, refl, unfold decode_ke slice_from in ground (arith, from_be16-be16 group w))
decode_payload-encode_body (id true id_type octets) next w =
    (_, refl, unfold decode_plain slice_from in ground arith)
decode_payload-encode_body (id false id_type octets) next w =
    (_, refl, unfold decode_plain slice_from in ground arith)
decode_payload-encode_body (cert encoding octets) next w =
    (_, refl, unfold decode_plain slice_from in ground arith)
decode_payload-encode_body (cert_req encoding octets) next w =
    (_, refl, unfold decode_plain slice_from in ground arith)
decode_payload-encode_body (auth method octets) next w =
    (_, refl, unfold decode_plain slice_from in ground arith)
decode_payload-encode_body (nonce octets) next w = (_, refl, refl)
decode_payload-encode_body (notify protocol spi notify_type octets) next (h, u) = (
  protocol ∷ (length spi % 2 ^ 8) ∷ (be16 notify_type ++ (spi ++ octets)),
  ground arith,
  decode_notify-octets protocol spi notify_type octets h u,
)
decode_payload-encode_body (delete protocol spi_size spis) next (inl h, n, u) = (
  protocol ∷ spi_size ∷ (be16 (as_u16 (length spis)) ++ spis_octets spi_size spis),
  rw (encode_spis-octets spi_size spis h),
  decode_delete-octets protocol spi_size spis h n u,
)
decode_payload-encode_body (delete protocol spi_size spis) next (inr (z, e), n, u) =
    (protocol ∷ 0 ∷ 0 ∷ 0 ∷ [], rw (z, e) refl, rw (z, e) (unfold decode_delete in refl))
decode_payload-encode_body (ts true selectors) next (n, w) =
    let (body, e, d) = decode_ts-encode_ts selectors n w in (body, e, rw d)
decode_payload-encode_body (ts false selectors) next (n, w) =
    let (body, e, d) = decode_ts-encode_ts selectors n w in (body, e, rw d)
decode_payload-encode_body (configuration attributes) next w = (
  configs_octets attributes,
  encode_config-octets attributes w,
  rw (decode_config-octets attributes (suc (length (configs_octets attributes))) w (omega arith)),
)
decode_payload-encode_body (eap_packet octets) next w = (_, refl, refl)
decode_payload-encode_body (encrypted n octets) next w = (_, refl, refl)
decode_payload-encode_body (other kind octets) next w =
    (_, refl, decode_payload-other kind octets next w)
