-- ===== src/Ike/Message.antt =====
-- `Message` of ipsec/ikev2/codec.rs.
pub mod RoundTrip
pub mod Total
use shuli.Base.{ℕ, ◌+◌, Option, List, ◌++◌, length, take, drop, find, ◌==◌}
use shuli.Base.Outcome.{Outcome, ok, ◌>>=◌}
use shuli.Base.Bytes.{slice_to, slice_from, be32, as_u32}
use shuli.Ike.Types.{IpsecErrorKind, Payload, Message, ike_header_len}
use shuli.Ike.Header
use shuli.Ike.Payload.{payload_type}
use shuli.Ike.Chain.{first_type, encode_chain, decode_chain}

-- `buffer[24..28].copy_from_slice(&length.to_be_bytes())`
unfoldable pub with_length : List ℕ → ℕ → List ℕ
with_length buffer total = take 24 buffer ++ (be32 total ++ drop 28 buffer)

unfoldable pub encode : Message → Outcome IpsecErrorKind (List ℕ)
encode message = do
  chain ← encode_chain message.payloads
  let header = record message.header { next_payload = first_type message.payloads }
  let buffer = Header.encode header ++ chain
  ok (with_length buffer (as_u32 (length buffer)))

unfoldable pub decode : List ℕ → Outcome IpsecErrorKind Message
decode buffer = do
  header ← Header.decode buffer
  octets ← slice_to buffer header.length
  chain ← slice_from octets ike_header_len
  payloads ← decode_chain header.next_payload chain
  ok (record { header = header; payloads = payloads })

-- The first payload of a type.
unfoldable pub payload : Message → ℕ → Option Payload
payload message kind = find (λ p. payload_type p == kind) message.payloads
