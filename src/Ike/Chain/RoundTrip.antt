-- ===== src/Ike/Chain/RoundTrip.antt =====
-- `decode_chain` reads back the payloads that `encode_chain` wrote.
use shuli.Base.{
  ◌∙◌, ap, ℕ, zero, suc, ◌+◌, ◌/◌, ◌%◌, ◌^◌, ◌≤◌, ◌<◌, ◌≡◌, ◌≢◌, refl, List, [], ◌∷◌, ◌++◌, arith,
  length, All, length-append,
}
use shuli.Base.Outcome.{ok}
use shuli.Base.Bytes.{from_be16-be16, be16, as_u16, slice-append, slice_from-append}
use shuli.Ike.Types.{IpsecErrorKind, Payload, encrypted, none_payload, sk_payload}
use shuli.Ike.Payload.{payload_type, encode_body, decode_payload}
use shuli.Ike.Payload.RoundTrip.{IsWirePayload, with_next, decode_payload-encode_body}
use shuli.Ike.Chain.{
  encode_bodies, next_kind, encode_headers, encode_chain, first_type, split_payload,
  decode_chain_loop, decode_chain,
}

-- A payload that may stand in a chain: it fits the wire format, its body fits its length field,
-- and its type neither ends the chain (0) nor is that of an SK payload.
pub record IsChained (p : Payload) : Type 0 where
  pub wire : IsWirePayload p
  pub fits : (body : List ℕ) → encode_body p ≡ ok body → 4 + length body ≤ 65535
  pub follows : payload_type p ≢ none_payload
  pub plain : payload_type p ≢ sk_payload

abbrev pub chained_octets : ℕ → List ℕ → List ℕ → List ℕ
chained_octets next body rest =
    (next ∷ 0 ∷ []) ++ (be16 (as_u16 (4 + length body)) ++ (body ++ rest))

pub split_payload-octets :
    (next : ℕ) (body rest : List ℕ)
    → 4 + length body ≤ 65535
    → split_payload (chained_octets next body rest) ≡ ok (next, body, rest)
unfolding split_payload
split_payload-octets next body rest h =
    let hi = as_u16 (4 + length body) / 2 ^ 8 % 2 ^ 8 in
    let lo = as_u16 (4 + length body) % 2 ^ 8 in
    ground (
      arith,
      from_be16-be16 (as_u16 (4 + length body)),
      length-append body rest,
      slice-append {E = IpsecErrorKind} (next ∷ 0 ∷ hi ∷ lo ∷ []) body rest,
      slice_from-append {E = IpsecErrorKind} (next ∷ 0 ∷ hi ∷ lo ∷ body) rest,
    )

decode_chain_loop-step :
    (fuel kind next : ℕ) (body rest : List ℕ) (p : Payload) (ps : List Payload)
    → kind ≢ none_payload
    → kind ≢ sk_payload
    → 4 + length body ≤ 65535
    → decode_payload kind body next ≡ ok p
    → decode_chain_loop fuel next rest ≡ ok ps
    → decode_chain_loop (suc fuel) kind (chained_octets next body rest) ≡ ok (p ∷ ps)
unfolding decode_chain_loop
decode_chain_loop-step fuel kind next body rest p ps n s h d e =
    ground (arith, split_payload-octets next body rest h)

with_next-plain : (next : ℕ) (p : Payload) → payload_type p ≢ sk_payload → with_next next p ≡ p
unfolding payload_type
with_next-plain next (encrypted n octets) h = absurd (h refl)
with_next-plain next _ h = refl

-- What the induction carries: the chain is encoded, and any fuel above its length decodes it.
record Encoded (ps : List Payload) : Type 0 where
  bodies : List (ℕ × List ℕ)
  octets : List ℕ
  encodes : encode_bodies ps ≡ ok bodies
  first : next_kind bodies ≡ first_type ps
  heads : encode_headers bodies ≡ ok octets
  decodes :
      (fuel : ℕ) → length octets < fuel → decode_chain_loop fuel (first_type ps) octets ≡ ok ps

Encoded-nil : Encoded []
unfolding encode_bodies next_kind encode_headers decode_chain_loop first_type
Encoded-nil = record {
  bodies = [];
  octets = [];
  encodes = refl;
  first = refl;
  heads = refl;
  decodes = elim [ zero ↦ λ h. absurd (omega arith) | suc fuel ↦ λ h. refl ];
}

Encoded-step :
    (fuel next : ℕ) (body rest : List ℕ) (p : Payload) (ps : List Payload)
    → IsChained p
    → 4 + length body ≤ 65535
    → decode_payload (payload_type p) body next ≡ ok p
    → length (chained_octets next body rest) < fuel
    → ((fuel : ℕ) → length rest < fuel → decode_chain_loop fuel next rest ≡ ok ps)
    → decode_chain_loop fuel (payload_type p) (chained_octets next body rest) ≡ ok (p ∷ ps)
Encoded-step zero next body rest p ps c fits d h ih = absurd (omega arith)
Encoded-step (suc fuel) next body rest p ps c fits d h ih =
    decode_chain_loop-step fuel (payload_type p) next body rest p ps c.follows c.plain fits d
      (ih fuel (omega (arith, length-append body rest)))

Encoded-cons : (p : Payload) (ps : List Payload) → IsChained p → Encoded ps → Encoded (p ∷ ps)
unfolding encode_bodies encode_headers next_kind first_type
Encoded-cons p ps c r =
    let next = first_type ps in
    let (body, e, d) = decode_payload-encode_body p next c.wire in
    let d' : decode_payload (payload_type p) body next ≡ ok p =
      d ∙ ap ok (with_next-plain next p c.plain) in
    let fits = c.fits body e in
    record {
      bodies = (payload_type p, body) ∷ r.bodies;
      octets = chained_octets next body r.octets;
      encodes = rw (e, r.encodes);
      first = refl;
      heads = ground arith;
      decodes = λ fuel h. Encoded-step fuel next body r.octets p ps c fits d' h r.decodes;
    }

Encoded-chain : (ps : List Payload) → All IsChained ps → Encoded ps
Encoded-chain [] w = Encoded-nil
Encoded-chain (p ∷ ps) (w, ws) = Encoded-cons p ps w (Encoded-chain ps ws)

-- A chain of payloads that may stand in one is encoded, and decoded again to itself from the type
-- of its first payload.
pub decode_chain-encode_chain :
    (ps : List Payload)
    → All IsChained ps
    → (octets : List ℕ) × (encode_chain ps ≡ ok octets)
      × (decode_chain (first_type ps) octets ≡ ok ps)
unfolding encode_chain decode_chain
decode_chain-encode_chain ps w =
    let r = Encoded-chain ps w in (r.octets, rw r.encodes r.heads, r.decodes _ (omega arith))
