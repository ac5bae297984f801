-- ===== src/Runs/Payloads.antt =====
-- Payload bodies, chains and messages at concrete inputs of ipsec/ikev2/codec.rs.
use shuli.Base.{ℕ, ◌+◌, ◌≡◌, refl, List, [], ◌∷◌, arith, length, All, inl, replicate}
use shuli.Base.Outcome.{ok, Returns}
use shuli.Base.Bytes.{IsU32}
use shuli.Ike.Types.{informational, Payload, Message, nonce, delete}
use shuli.Ike.Payload.{payload_type, encode_body, encode_spis, decode_payload}
use shuli.Ike.Payload.RoundTrip.{IsWirePayload, with_next, decode_payload-encode_body}
use shuli.Ike.Chain.{encode_chain, encode_bodies, encode_headers, decode_chain, first_type}
use shuli.Ike.Chain.RoundTrip.{IsChained, decode_chain-encode_chain}
use shuli.Ike.Message
use shuli.Ike.Message.RoundTrip.{wire_header, decode-encode_message}
use shuli.Ike.Message.Total.{Returns-decode}

abbrev pub goodbye : Payload
goodbye = delete 3 4 (0x01020304 ∷ [])

abbrev pub fresh_nonce : Payload
fresh_nonce = nonce (9 ∷ 8 ∷ 7 ∷ [])

abbrev goodbye_message : Message
goodbye_message = record {
  header = record {
    initiator_spi = 1;
    responder_spi = 2;
    next_payload = 0;
    version = 0x20;
    exchange = informational;
    flags = 8;
    message_id = 2;
    length = 0;
  };
  payloads = fresh_nonce ∷ goodbye ∷ [];
}

goodbye-IsWirePayload : IsWirePayload goodbye
goodbye-IsWirePayload = (inl (inl refl), ground arith, (ground arith, tt))

goodbye-IsChained : IsChained goodbye
unfolding encode_body encode_spis payload_type
goodbye-IsChained = record {
  wire = goodbye-IsWirePayload;
  fits = λ body e. ground arith;
  follows = λ e. ground arith;
  plain = λ e. ground arith;
}

fresh_nonce-IsChained : IsChained fresh_nonce
unfolding encode_body payload_type
fresh_nonce-IsChained = record {
  wire = tt;
  fits = λ body e. ground arith;
  follows = λ e. ground arith;
  plain = λ e. ground arith;
}

pub payloads-IsChained : All IsChained (fresh_nonce ∷ goodbye ∷ [])
payloads-IsChained = (fresh_nonce-IsChained, (goodbye-IsChained, tt))

decode_payload-encode_body_example :
    (body : List ℕ) × (encode_body goodbye ≡ ok body)
    × (decode_payload (payload_type goodbye) body 0 ≡ ok (with_next 0 goodbye))
decode_payload-encode_body_example = decode_payload-encode_body goodbye 0 goodbye-IsWirePayload

decode_chain-encode_chain_example :
    (octets : List ℕ) × (encode_chain (fresh_nonce ∷ goodbye ∷ []) ≡ ok octets)
    × (decode_chain (first_type (fresh_nonce ∷ goodbye ∷ [])) octets
        ≡ ok (fresh_nonce ∷ goodbye ∷ []))
decode_chain-encode_chain_example =
    decode_chain-encode_chain (fresh_nonce ∷ goodbye ∷ []) payloads-IsChained

chain_fits :
    (chain : List ℕ)
    → encode_chain (fresh_nonce ∷ goodbye ∷ []) ≡ ok chain
    → IsU32 (28 + length chain)
unfolding encode_chain encode_bodies encode_headers encode_body encode_spis payload_type
chain_fits chain e = ground arith

decode-encode_message_example :
    (buffer : List ℕ) × (Message.encode goodbye_message ≡ ok buffer)
    × (Message.decode buffer
        ≡ ok (record {
          header = wire_header goodbye_message (length buffer);
          payloads = goodbye_message.payloads;
        }))
decode-encode_message_example =
    decode-encode_message goodbye_message (ground arith) (ground arith) (ground arith) refl
      payloads-IsChained chain_fits

Returns-decode_example : Returns (Message.decode (replicate 40 0x20))
Returns-decode_example = Returns-decode (replicate 40 0x20)
