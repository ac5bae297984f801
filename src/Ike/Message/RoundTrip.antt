-- ===== src/Ike/Message/RoundTrip.antt =====
-- `Message::decode` reads back the messages that `Message::encode` wrote.
use shuli.Base.{ℕ, ◌+◌, ◌/◌, ◌%◌, ◌^◌, ◌≡◌, refl, List, ◌++◌, arith, length, All, take_all}
use shuli.Base.Outcome.{ok}
use shuli.Base.Bytes.{IsU32, IsU64, slice_from, slice_to}
use shuli.Ike.Types.{IpsecErrorKind, Payload, IkeHeader, Message, ike_header_len}
use shuli.Ike.Header
use shuli.Ike.Header.RoundTrip.{IsWireHeader, decode-encode}
use shuli.Ike.Chain.{first_type, encode_chain, decode_chain}
use shuli.Ike.Chain.RoundTrip.{IsChained, decode_chain-encode_chain}
use shuli.Ike.Message.{with_length, encode, decode}

-- Only the length field changes.
with_length-encode :
    (h : IkeHeader) (chain : List ℕ) (total : ℕ)
    → with_length (Header.encode h ++ chain) total
      ≡ Header.encode (record h { length = total }) ++ chain
unfolding with_length Header.encode
with_length-encode h chain total = refl

pub length-encode :
    (h : IkeHeader) (chain : List ℕ) → length (Header.encode h ++ chain) ≡ 28 + length chain
unfolding Header.encode
length-encode h chain = omega arith

slice_to-whole :
    (octets : List ℕ) (n : ℕ)
    → n ≡ length octets
    → slice_to {E = IpsecErrorKind} octets n ≡ ok octets
unfolding slice_to
slice_to-whole octets n h = ground (arith, take_all n octets)

slice_from-encode :
    (h : IkeHeader) (chain : List ℕ)
    → slice_from {E = IpsecErrorKind} (Header.encode h ++ chain) ike_header_len ≡ ok chain
unfolding slice_from Header.encode
slice_from-encode h chain = ground arith

pub decode-octets :
    (h : IkeHeader) (chain : List ℕ) (ps : List Payload)
    → IsWireHeader h
    → h.length ≡ 28 + length chain
    → decode_chain h.next_payload chain ≡ ok ps
    → decode (Header.encode h ++ chain) ≡ ok (record { header = h; payloads = ps })
unfolding decode
decode-octets h chain ps w len e = rw (
  decode-encode h chain w (omega arith),
  slice_to-whole (Header.encode h ++ chain) h.length (omega (arith, length-encode h chain)),
  slice_from-encode h chain,
  e,
)

-- The header that `encode` writes for a message of so many octets.
abbrev pub wire_header : Message → ℕ → IkeHeader
wire_header m total = record m.header { next_payload = first_type m.payloads; length = total }

-- A version 2 message with u64 SPIs and a u32 message id, whose payloads may stand in a chain and
-- whose octets a u32 can count, is encoded, and decoded again to itself with its next-payload and
-- length fields filled in.
pub decode-encode_message :
    (m : Message)
    → IsU64 m.header.initiator_spi
    → IsU64 m.header.responder_spi
    → IsU32 m.header.message_id
    → m.header.version / 16 ≡ 2
    → All IsChained m.payloads
    → ((chain : List ℕ) → encode_chain m.payloads ≡ ok chain → IsU32 (28 + length chain))
    → (buffer : List ℕ) × (encode m ≡ ok buffer)
      × (decode buffer
          ≡ ok (record { header = wire_header m (length buffer); payloads = m.payloads }))
unfolding encode
decode-encode_message m i r n v w fits =
    let (chain, e, d) = decode_chain-encode_chain m.payloads w in
    let header = wire_header m (28 + length chain) in
    let small = fits chain e in
    let total = length-encode header chain in
    let unwrapped : (28 + length chain) % 2 ^ 32 ≡ 28 + length chain = omega arith in
    (
      Header.encode header ++ chain,
      rw (
        e,
        with_length-encode (record m.header { next_payload = first_type m.payloads }) chain _,
        length-encode (record m.header { next_payload = first_type m.payloads }) chain,
        unwrapped,
      ),
      rw total (
          decode-octets header chain m.payloads
            (record {
              initiator_spi = i;
              responder_spi = r;
              message_id = n;
              length = small;
              version = v;
              covers = omega arith;
            })
            refl d),
    )
