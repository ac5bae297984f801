-- ===== src/Ike/Sa/RoundTrip.antt =====
-- `decode_sa` reads back the proposals that `encode_sa` wrote.
use shuli.Base.{
  if◌then◌else◌, ℕ, zero, suc, ◌+◌, ◌/◌, ◌%◌, ◌^◌, ◌≤◌, ◌<◌, ◌≡◌, refl, List, [], ◌∷◌, ◌++◌, arith,
  Bool, true, length, All, length-append, drop-length_append, append-nil,
}
use shuli.Base.Outcome.{ok}
use shuli.Base.Bytes.{as_u8, from_be16-be16, be16, slice-append}
use shuli.Ike.Types.{IpsecErrorKind, Proposal}
use shuli.Ike.Sa.{
  is_empty, encode_transforms, proposal_body, encode_proposal, encode_sa, decode_proposal,
  decode_proposal_slice, decode_sa_loop, decode_sa,
}
use shuli.Ike.Sa.Transforms.{IsWireTransform, decode_transforms-encode}

pub record IsWireProposal (p : Proposal) : Type 0 where
  pub spi : length p.spi ≤ 255
  pub count : length p.transforms ≤ 255
  pub transforms : All IsWireTransform p.transforms
  pub length : 4 + length (proposal_body p) < 2 ^ 16

-- What `offset + length` cuts off for a proposal: its four octets of header and its body.
decode_proposal_slice-body :
    (a b c d : ℕ) (p : Proposal)
    → IsWireProposal p
    → decode_proposal_slice (a ∷ b ∷ c ∷ d ∷ proposal_body p) ≡ ok p
unfolding decode_proposal_slice proposal_body
decode_proposal_slice-body a b c d p w =
    let transforms = encode_transforms p.transforms in
    ground (
      arith,
      length-append p.spi transforms,
      slice-append {E = IpsecErrorKind}
          (a
            ∷ b
            ∷ c
            ∷ d
            ∷ p.number
            ∷ p.protocol
            ∷ as_u8 (length p.spi)
            ∷ as_u8 (length p.transforms)
            ∷ [])
          p.spi transforms,
      drop-length_append p.spi transforms,
      append-nil transforms,
      decode_transforms-encode p.transforms [] w.transforms,
    )

abbrev proposal_octets : Bool → Proposal → List ℕ
proposal_octets last p =
    ((if last then 0 else 2) ∷ 0 ∷ []) ++ (be16 (4 + length (proposal_body p)) ++ proposal_body p)

length-proposal_body : (p : Proposal) → 4 + length p.spi ≤ length (proposal_body p)
unfolding proposal_body
length-proposal_body p = omega (arith, length-append p.spi (encode_transforms p.transforms))

encode_proposal-octets :
    (last : Bool) (p : Proposal)
    → IsWireProposal p
    → encode_proposal last p ≡ ok (proposal_octets last p)
unfolding encode_proposal
encode_proposal-octets last p w = ground (arith, length-proposal_body p)

decode_proposal-encode :
    (last : Bool) (p : Proposal) (rest : List ℕ)
    → IsWireProposal p
    → decode_proposal (proposal_octets last p ++ rest)
      ≡ ok (p, (if last then 0 else 2), length (proposal_octets last p))
unfolding decode_proposal
decode_proposal-encode last p rest w =
    let len : ℕ = 4 + length (proposal_body p) in
    ground (
      arith,
      from_be16-be16 len,
      length-append (proposal_body p) rest,
      length-proposal_body p,
      slice-append {E = IpsecErrorKind} [] (proposal_octets last p) rest,
      decode_proposal_slice-body (if last then 0 else 2) 0 (len / 2 ^ 8 % 2 ^ 8) (len % 2 ^ 8) p w,
    )

abbrev sa_octets : List Proposal → List ℕ
sa_octets [] = []
sa_octets (p ∷ ps) = proposal_octets (is_empty ps) p ++ sa_octets ps

encode_sa-octets : (ps : List Proposal) → All IsWireProposal ps → encode_sa ps ≡ ok (sa_octets ps)
unfolding encode_sa
encode_sa-octets [] w = refl
encode_sa-octets (p ∷ ps) (w, ws) =
    rw (encode_proposal-octets (is_empty ps) p w, encode_sa-octets ps ws)

is_empty-eq_nil : (ps : List Proposal) → is_empty ps ≡ true → ps ≡ []
is_empty-eq_nil [] e = refl
is_empty-eq_nil (p ∷ ps) e = cc

-- One round of the loop over the proposals.
decode_sa_loop-step :
    (fuel : ℕ) (last : Bool) (p : Proposal) (rest : List ℕ) (ps : List Proposal)
    → IsWireProposal p
    → decode_sa_loop fuel rest ≡ ok ps
    → (last ≡ true → ps ≡ [])
    → decode_sa_loop (suc fuel) (proposal_octets last p ++ rest) ≡ ok (p ∷ ps)
unfolding decode_sa_loop
decode_sa_loop-step fuel last p rest ps w e ends = ground (
  arith,
  length-append (proposal_octets last p) rest,
  length-proposal_body p,
  decode_proposal-encode last p rest w,
  drop-length_append (proposal_octets last p) rest,
)

decode_sa_loop-octets :
    (ps : List Proposal) (fuel : ℕ)
    → All IsWireProposal ps
    → length (sa_octets ps) < fuel
    → decode_sa_loop fuel (sa_octets ps) ≡ ok ps
decode_sa_loop-octets ps zero w h = absurd (omega arith)
decode_sa_loop-octets [] (suc fuel) w h = unfold decode_sa_loop in refl
decode_sa_loop-octets (p ∷ ps) (suc fuel) (w, ws) h =
    decode_sa_loop-step fuel (is_empty ps) p (sa_octets ps) ps w
      (decode_sa_loop-octets ps fuel ws
        (omega (arith, length-append (proposal_octets (is_empty ps) p) (sa_octets ps))))
      (is_empty-eq_nil ps)

-- Proposals that fit the wire format's fields are encoded, and decoded again to themselves.
pub decode_sa-encode_sa :
    (ps : List Proposal)
    → All IsWireProposal ps
    → (body : List ℕ) × (encode_sa ps ≡ ok body) × (decode_sa body ≡ ok ps)
unfolding decode_sa
decode_sa-encode_sa ps w =
    (sa_octets ps, encode_sa-octets ps w, decode_sa_loop-octets ps _ w (omega arith))
