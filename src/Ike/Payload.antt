-- ===== src/Ike/Payload.antt =====
-- `Payload::payload_type`, `encode_body` and `decode_payload` of ipsec/ikev2/codec.rs.
pub mod Total
pub mod RoundTrip
use shuli.Base.{
  ℕ, zero, suc, ◌+◌, ◌*◌, ◌%◌, ◌^◌, Bool, true, false, List, [], ◌∷◌, ◌++◌, length, drop, ltb, leb,
  not, ◌||◌, ◌==◌, if◌then◌else◌,
}
use shuli.Base.Outcome.{Outcome, ok, err, out_of_fuel, refuse_if, ◌>>=◌, ◌>>◌}
use shuli.Base.Bytes.{byte, u16_at, u32_at, slice, slice_from, be16, be32, be64, as_u16, as_u8}
use shuli.Ike.Types.{
  IpsecErrorKind, ike, ConfigAttribute, Payload, sa, ke, id, cert, cert_req, auth, nonce, notify,
  delete, ts, configuration, eap_packet, encrypted, other, sa_payload, ke_payload, idi_payload,
  idr_payload, cert_payload, certreq_payload, auth_payload, nonce_payload, notify_payload,
  delete_payload, tsi_payload, tsr_payload, sk_payload, cp_payload, eap_payload,
}
use shuli.Ike.Sa.{encode_sa, decode_sa}
use shuli.Ike.Selector.{encode_ts, decode_ts}

unfoldable pub payload_type : Payload → ℕ
payload_type (sa proposals) = sa_payload
payload_type (ke group octets) = ke_payload
payload_type (id initiator id_type octets) = if initiator then idi_payload else idr_payload
payload_type (cert encoding octets) = cert_payload
payload_type (cert_req encoding octets) = certreq_payload
payload_type (auth method octets) = auth_payload
payload_type (nonce octets) = nonce_payload
payload_type (notify protocol spi notify_type octets) = notify_payload
payload_type (delete protocol spi_size spis) = delete_payload
payload_type (ts initiator selectors) = if initiator then tsi_payload else tsr_payload
payload_type (configuration attributes) = cp_payload
payload_type (eap_packet octets) = eap_payload
payload_type (encrypted next octets) = sk_payload
payload_type (other kind octets) = kind

-- The loop over the SPIs of a Delete payload.
unfoldable pub encode_spis : ℕ → List ℕ → Outcome IpsecErrorKind (List ℕ)
encode_spis spi_size [] = ok []
encode_spis spi_size (spi ∷ spis) = do
  head ← if spi_size == 4 then ok (be32 spi) else if spi_size == 8 then ok (be64 spi) else err ike
  tail ← encode_spis spi_size spis
  ok (head ++ tail)

unfoldable pub encode_config : List ConfigAttribute → Outcome IpsecErrorKind (List ℕ)
encode_config [] = ok []
encode_config (attribute ∷ rest) = do
  refuse_if (ltb 65535 (length attribute.value)) ike
  tail ← encode_config rest
  ok (be16 attribute.type_ ++ (be16 (as_u16 (length attribute.value)) ++ (attribute.value ++ tail)))

unfoldable pub encode_body : Payload → Outcome IpsecErrorKind (List ℕ)
encode_body (sa proposals) = encode_sa proposals
encode_body (ke group octets) = ok (be16 group ++ ((0 ∷ 0 ∷ []) ++ octets))
encode_body (id initiator id_type octets) = ok ((id_type ∷ 0 ∷ 0 ∷ 0 ∷ []) ++ octets)
encode_body (cert encoding octets) = ok (encoding ∷ octets)
encode_body (cert_req encoding octets) = ok (encoding ∷ octets)
encode_body (auth method octets) = ok ((method ∷ 0 ∷ 0 ∷ 0 ∷ []) ++ octets)
encode_body (nonce octets) = ok octets
encode_body (notify protocol spi notify_type octets) = do
  refuse_if (ltb 255 (length spi)) ike
  ok ((protocol ∷ as_u8 (length spi) ∷ []) ++ (be16 notify_type ++ (spi ++ octets)))
encode_body (delete protocol spi_size spis) = do
  octets ← encode_spis spi_size spis
  ok ((protocol ∷ spi_size ∷ []) ++ (be16 (as_u16 (length spis)) ++ octets))
encode_body (ts initiator selectors) = encode_ts selectors
encode_body (configuration attributes) = encode_config attributes
encode_body (eap_packet octets) = ok octets
encode_body (encrypted next octets) = ok octets
encode_body (other kind octets) = ok octets

-- One SPI of a Delete payload: `match spi_size`.
unfoldable pub decode_spi : ℕ → List ℕ → Outcome IpsecErrorKind ℕ
decode_spi spi_size rest =
    let four = u32_at rest 0 in
    let eight = (do
      high ← u32_at rest 0
      low ← u32_at rest 4
      refuse_if (not (high == 0)) ike
      ok low) in
    if spi_size == 4 then four else if spi_size == 8 then eight else ok 0

-- `for index in 0..count`; the list begins at `start`.
unfoldable pub decode_spis : ℕ → ℕ → List ℕ → Outcome IpsecErrorKind (List ℕ)
decode_spis zero spi_size rest = ok []
decode_spis (suc count) spi_size rest = do
  spi ← decode_spi spi_size rest
  spis ← decode_spis count spi_size (drop spi_size rest)
  ok (spi ∷ spis)

unfoldable pub decode_delete : List ℕ → Outcome IpsecErrorKind Payload
decode_delete body = do
  refuse_if (ltb (length body) 4) ike
  protocol ← byte body 0
  spi_size ← byte body 1
  count ← u16_at body 2
  refuse_if
      (not (spi_size == 0 || spi_size == 4 || spi_size == 8)
        || ltb (length body) (4 + count * spi_size))
      ike
  spis ← decode_spis count spi_size (drop 4 body)
  ok (delete protocol spi_size spis)

unfoldable pub decode_notify : List ℕ → Outcome IpsecErrorKind Payload
decode_notify body = do
  refuse_if (ltb (length body) 4) ike
  protocol ← byte body 0
  spi_size ← byte body 1
  notify_type ← u16_at body 2
  refuse_if (ltb (length body) (4 + spi_size)) ike
  spi ← slice body 4 (4 + spi_size)
  octets ← slice_from body (4 + spi_size)
  ok (notify protocol spi notify_type octets)

-- `while offset + 4 <= body.len()`
unfoldable pub decode_config : ℕ → List ℕ → Outcome IpsecErrorKind (List ConfigAttribute)
decode_config zero rest = out_of_fuel
decode_config (suc fuel) rest =
    let more = (do
      word ← u16_at rest 0
      len ← u16_at rest 2
      refuse_if (ltb (length rest) (4 + len)) ike
      value ← slice rest 4 (4 + len)
      attributes ← decode_config fuel (drop (4 + len) rest)
      ok (record { type_ = word % 2 ^ 15; value = value } ∷ attributes)) in
    if leb 4 (length rest) then more else ok []

-- A payload of a number and octets behind a header of `size` octets.
unfoldable pub decode_plain : ℕ → (ℕ → List ℕ → Payload) → List ℕ → Outcome IpsecErrorKind Payload
decode_plain size build body = do
  refuse_if (ltb (length body) size) ike
  first ← byte body 0
  octets ← slice_from body size
  ok (build first octets)

unfoldable pub decode_ke : List ℕ → Outcome IpsecErrorKind Payload
decode_ke body = do
  refuse_if (ltb (length body) 4) ike
  group ← u16_at body 0
  octets ← slice_from body 4
  ok (ke group octets)

-- The `match kind`, its arms in the source's order.
unfoldable pub decode_payload : ℕ → List ℕ → ℕ → Outcome IpsecErrorKind Payload
decode_payload kind body next =
    if kind == sa_payload
    then (do proposals ← decode_sa body; ok (sa proposals))
    else if kind == ke_payload
    then decode_ke body
    else if kind == idi_payload || kind == idr_payload
    then decode_plain 4 (id (kind == idi_payload)) body
    else if kind == cert_payload
    then decode_plain 1 cert body
    else if kind == certreq_payload
    then decode_plain 1 cert_req body
    else if kind == auth_payload
    then decode_plain 4 auth body
    else if kind == nonce_payload
    then ok (nonce body)
    else if kind == notify_payload
    then decode_notify body
    else if kind == delete_payload
    then decode_delete body
    else if kind == tsi_payload
    then (do selectors ← decode_ts body; ok (ts true selectors))
    else if kind == tsr_payload
    then (do selectors ← decode_ts body; ok (ts false selectors))
    else if kind == cp_payload
    then (do attributes ← decode_config (suc (length body)) body; ok (configuration attributes))
    else if kind == eap_payload
    then ok (eap_packet body)
    else if kind == sk_payload
    then ok (encrypted next body)
    else ok (other kind body)
