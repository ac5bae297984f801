-- ===== src/Ike/Header.antt =====
-- `IkeHeader` of ipsec/ikev2/codec.rs.
pub mod RoundTrip
use shuli.Base.{
  ℕ, ◌+◌, ◌*◌, ◌/◌, Bool, Option, none, some, List, [], ◌∷◌, ◌++◌, length, ltb, not, ◌||◌, ◌==◌,
}
use shuli.Base.Outcome.{Outcome, ok, err, refuse_if, ◌>>=◌, ◌>>◌}
use shuli.Base.Bytes.{byte, u32_at, u64_at, be32, be64, has_bit}
use shuli.Ike.Types.{
  IpsecErrorKind, ike, no_support, ExchangeType, exchange_as_u8, exchange_from_u8, IkeHeader,
  none_payload, ike_header_len, ike_version_2,
}

unfoldable pub new : ℕ → ℕ → ExchangeType → ℕ → ℕ → IkeHeader
new initiator_spi responder_spi exchange flags message_id = record {
  initiator_spi = initiator_spi;
  responder_spi = responder_spi;
  next_payload = none_payload;
  version = ike_version_2;
  exchange = exchange;
  flags = flags;
  message_id = message_id;
  length = ike_header_len;
}

-- FLAG_INITIATOR is 0x08, and FLAG_RESPONSE is 0x20.
unfoldable pub is_initiator : IkeHeader → Bool
is_initiator header = has_bit header.flags 3

unfoldable pub is_response : IkeHeader → Bool
is_response header = has_bit header.flags 5

unfoldable pub encode : IkeHeader → List ℕ
encode header =
    be64 header.initiator_spi
    ++ (be64 header.responder_spi
        ++ (header.next_payload
              ∷ header.version
              ∷ exchange_as_u8 header.exchange
              ∷ header.flags
              ∷ []
            ++ (be32 header.message_id ++ be32 header.length)))

-- `ok_or_else`
abbrev pub exchange_or_no_support : Option ExchangeType → Outcome IpsecErrorKind ExchangeType
exchange_or_no_support none = err no_support
exchange_or_no_support (some exchange) = ok exchange

-- `version & 0xf0` is `version / 16 * 16`.
unfoldable pub decode : List ℕ → Outcome IpsecErrorKind IkeHeader
decode buffer = do
  refuse_if (ltb (length buffer) ike_header_len) ike
  initiator_spi ← u64_at buffer 0
  responder_spi ← u64_at buffer 8
  next_payload ← byte buffer 16
  version ← byte buffer 17
  exchange_byte ← byte buffer 18
  exchange ← exchange_or_no_support (exchange_from_u8 exchange_byte)
  flags ← byte buffer 19
  message_id ← u32_at buffer 20
  total ← u32_at buffer 24
  refuse_if (not (version / 16 * 16 == ike_version_2)) ike
  refuse_if (ltb (length buffer) total || ltb total ike_header_len) ike
  ok (record {
    initiator_spi = initiator_spi;
    responder_spi = responder_spi;
    next_payload = next_payload;
    version = version;
    exchange = exchange;
    flags = flags;
    message_id = message_id;
    length = total;
  })
