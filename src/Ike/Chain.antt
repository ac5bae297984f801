-- ===== src/Ike/Chain.antt =====
-- `encode_chain` and `decode_chain` of ipsec/ikev2/codec.rs: payloads behind generic headers.
pub mod Total
pub mod RoundTrip
use shuli.Base.{ℕ, zero, suc, ◌+◌, List, [], ◌∷◌, ◌++◌, length, ltb, not, ◌||◌, ◌==◌, if◌then◌else◌}
use shuli.Base.Outcome.{Outcome, ok, err, out_of_fuel, refuse_if, ◌>>=◌, ◌>>◌}
use shuli.Base.Bytes.{byte, u16_at, slice, slice_from, be16, as_u16}
use shuli.Ike.Types.{IpsecErrorKind, ike, Payload, none_payload, sk_payload}
use shuli.Ike.Sa.{is_empty}
use shuli.Ike.Payload.{payload_type, encode_body, decode_payload}

-- `bodies`: every body is encoded before any header is written.
unfoldable pub encode_bodies : List Payload → Outcome IpsecErrorKind (List (ℕ × List ℕ))
encode_bodies [] = ok []
encode_bodies (payload ∷ rest) = do
  body ← encode_body payload
  bodies ← encode_bodies rest
  ok ((payload_type payload, body) ∷ bodies)

-- `bodies.get(index + 1)`, by its kind
unfoldable pub next_kind : List (ℕ × List ℕ) → ℕ
next_kind [] = none_payload
next_kind ((kind, body) ∷ rest) = kind

unfoldable pub encode_headers : List (ℕ × List ℕ) → Outcome IpsecErrorKind (List ℕ)
encode_headers [] = ok []
encode_headers ((kind, body) ∷ rest) = do
  let len = 4 + length body
  refuse_if (ltb 65535 len) ike
  tail ← encode_headers rest
  ok ((next_kind rest ∷ 0 ∷ []) ++ (be16 (as_u16 len) ++ (body ++ tail)))

unfoldable pub encode_chain : List Payload → Outcome IpsecErrorKind (List ℕ)
encode_chain payloads = do bodies ← encode_bodies payloads; encode_headers bodies

-- `payloads.first().map(Payload::payload_type).unwrap_or(payload_type::NONE)`
unfoldable pub first_type : List Payload → ℕ
first_type [] = none_payload
first_type (payload ∷ rest) = payload_type payload

-- The test behind the loop.
abbrev pub no_trailing : List ℕ → List Payload → Outcome IpsecErrorKind (List Payload)
no_trailing rest payloads = if is_empty rest then ok payloads else err ike

-- The octets of a payload's body, the next type, and the octets behind it.
unfoldable pub split_payload : List ℕ → Outcome IpsecErrorKind (ℕ × List ℕ × List ℕ)
split_payload octets = do
  refuse_if (ltb (length octets) 4) ike
  next ← byte octets 0
  len ← u16_at octets 2
  refuse_if (ltb len 4 || ltb (length octets) len) ike
  body ← slice octets 4 len
  rest ← slice_from octets len
  ok (next, body, rest)

-- `while payload_type != NONE`; an SK payload ends the chain.
unfoldable pub decode_chain_loop : ℕ → ℕ → List ℕ → Outcome IpsecErrorKind (List Payload)
decode_chain_loop zero kind octets = out_of_fuel
decode_chain_loop (suc fuel) kind octets =
    let more = (do
      (next, body, rest) ← split_payload octets
      payload ← decode_payload kind body next
      let others = (do payloads ← decode_chain_loop fuel next rest; ok (payload ∷ payloads))
      if kind == sk_payload then no_trailing rest (payload ∷ []) else others) in
    if kind == none_payload then no_trailing octets [] else more

-- Each round takes four octets or more, so the buffer's length is fuel enough.
unfoldable pub decode_chain : ℕ → List ℕ → Outcome IpsecErrorKind (List Payload)
decode_chain first_type octets = decode_chain_loop (suc (length octets)) first_type octets
