-- ===== src/Ike/Header/RoundTrip.antt =====
-- Reading back an encoded header, and reading any buffer at all.
use shuli.Base.{ℕ, ◌+◌, ◌/◌, ◌≤◌, ◌≡◌, refl, List, ◌++◌, arith, Option, none, some, length}
use shuli.Base.Outcome.{ok, Returns}
use shuli.Base.Bytes.{returns_rules, IsU32, IsU64, from_be32-be32}
use shuli.Ike.Types.{
  ExchangeType, ike_sa_init, ike_auth, create_child_sa, informational, exchange_as_u8,
  exchange_from_u8, IkeHeader, ike_header_len,
}
use shuli.Ike.Header.{encode, decode, exchange_or_no_support}

-- The fields fit their types, the major version is 2 and the length covers the header.
pub record IsWireHeader (h : IkeHeader) : Type 0 where
  pub initiator_spi : IsU64 h.initiator_spi
  pub responder_spi : IsU64 h.responder_spi
  pub message_id : IsU32 h.message_id
  pub length : IsU32 h.length
  pub version : h.version / 16 ≡ 2
  pub covers : ike_header_len ≤ h.length

exchange_from-exchange_as : (e : ExchangeType) → exchange_from_u8 (exchange_as_u8 e) ≡ some e
unfolding exchange_from_u8 exchange_as_u8
exchange_from-exchange_as ike_sa_init = refl
exchange_from-exchange_as ike_auth = refl
exchange_from-exchange_as create_child_sa = refl
exchange_from-exchange_as informational = refl

-- A version 2 header whose fields fit their types, and whose length covers the header and does not
-- pass the buffer, is read back from its encoding, whatever follows.
pub decode-encode :
    (h : IkeHeader) (rest : List ℕ)
    → IsWireHeader h
    → h.length ≤ ike_header_len + length rest
    → decode (encode h ++ rest) ≡ ok h
unfolding decode encode
decode-encode h rest w fits = ground (
  arith,
  exchange_from-exchange_as h.exchange,
  from_be32-be32 h.message_id w.message_id,
  from_be32-be32 h.length w.length,
)

Returns-exchange : (o : Option ExchangeType) → Returns (exchange_or_no_support o)
Returns-exchange none = tt
Returns-exchange (some e) = tt

-- Decoding a header never reads out of the buffer.
pub decode-Returns : (buffer : List ℕ) → Returns (decode buffer)
unfolding decode
decode-Returns buffer = search (returns_rules, Returns-exchange, arith) depth 40

-- A decoded header's length covers the header and stays inside the buffer.
pub decode-length :
    (buffer : List ℕ) (h : IkeHeader)
    → decode buffer ≡ ok h
    → (ike_header_len ≤ h.length) × (h.length ≤ length buffer)
unfolding decode
decode-length buffer h e = ground arith
