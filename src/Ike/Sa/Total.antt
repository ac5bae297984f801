-- ===== src/Ike/Sa/Total.antt =====
-- Decoding an SA payload reads inside its buffer and ends, on any octets.
use shuli.Base.{
  ◌==◌, ℕ, zero, suc, ◌≤◌, ◌<◌, ◌≡◌, List, arith, length, drop, length-drop, Bool-cases, inl, inr,
  leb, leb→le,
}
use shuli.Base.Outcome.{ok, Returns, Returns-bind, Returns-if}
use shuli.Base.Bytes.{returns_rules, slice}
use shuli.Ike.Types.{TransformAttribute, Proposal}
use shuli.Ike.Sa.{
  decode_attribute, decode_attributes, decode_transform, decode_transforms, decode_proposal,
  decode_proposal_slice, decode_sa_loop, decode_sa,
}

Returns-decode_attribute : (rest : List ℕ) → 4 ≤ length rest → Returns (decode_attribute rest)
unfolding decode_attribute
Returns-decode_attribute rest h = search (returns_rules, arith) depth 40

-- Each attribute takes four octets or more.
decode_attribute-size :
    (rest : List ℕ) (a : TransformAttribute) (size : ℕ)
    → decode_attribute rest ≡ ok (a, size)
    → 4 ≤ size
unfolding decode_attribute slice
decode_attribute-size rest a size e = ground arith

Returns-decode_attributes :
    (fuel : ℕ) (rest : List ℕ) → length rest < fuel → Returns (decode_attributes fuel rest)
unfolding decode_attributes
Returns-decode_attributes zero rest h = absurd (omega arith)
Returns-decode_attributes (suc fuel) rest h = elim (Bool-cases (leb 4 (length rest))) [
  | inl more ↦ rw more (
      Returns-bind _ _ (Returns-decode_attribute rest (leb→le _ _ more)) λ (a, size) e.
        Returns-bind _ _
          (Returns-decode_attributes fuel (drop size rest) (
            omega
              (arith, leb→le _ _ more, length-drop size rest, decode_attribute-size rest a size e)))
          λ _ _. tt)
  | inr done ↦ rw done tt
]

Returns-decode_transform : (rest : List ℕ) → Returns (decode_transform rest)
unfolding decode_transform
Returns-decode_transform rest = search (returns_rules, Returns-decode_attributes, arith) depth 40

Returns-decode_transforms : (count : ℕ) (rest : List ℕ) → Returns (decode_transforms count rest)
unfolding decode_transforms
Returns-decode_transforms zero rest = tt
Returns-decode_transforms (suc count) rest =
    Returns-bind _ _ (Returns-decode_transform rest)
      λ (t, size) e. Returns-bind _ _ (Returns-decode_transforms count (drop size rest)) λ _ _. tt

Returns-decode_proposal_slice :
    (proposal : List ℕ) → 8 ≤ length proposal → Returns (decode_proposal_slice proposal)
unfolding decode_proposal_slice
Returns-decode_proposal_slice proposal h =
    search (returns_rules, Returns-decode_transforms, arith) depth 40

Returns-decode_proposal : (rest : List ℕ) → 8 ≤ length rest → Returns (decode_proposal rest)
unfolding decode_proposal
Returns-decode_proposal rest h =
    search (returns_rules, Returns-decode_proposal_slice, arith) depth 40

-- Each proposal takes eight octets or more.
decode_proposal-size :
    (rest : List ℕ) (p : Proposal) (last len : ℕ)
    → decode_proposal rest ≡ ok (p, last, len)
    → 8 ≤ len
unfolding decode_proposal
decode_proposal-size rest p last len e = ground arith

Returns-decode_sa_loop :
    (fuel : ℕ) (rest : List ℕ) → length rest < fuel → Returns (decode_sa_loop fuel rest)
unfolding decode_sa_loop
Returns-decode_sa_loop zero rest h = absurd (omega arith)
Returns-decode_sa_loop (suc fuel) rest h = elim (Bool-cases (leb 8 (length rest))) [
  | inl more ↦ rw more (
      Returns-bind _ _ (Returns-decode_proposal rest (leb→le _ _ more)) λ (p, last, len) e.
        Returns-if (last == 0) _ _ tt (
          Returns-bind _ _
            (Returns-decode_sa_loop fuel (drop len rest) (
              omega (
                arith,
                leb→le _ _ more,
                length-drop len rest,
                decode_proposal-size rest p last len e,
              )))
            λ _ _. tt))
  | inr done ↦ rw done tt
]

-- On any octets `decode_sa` returns proposals or an error.
pub Returns-decode_sa : (body : List ℕ) → Returns (decode_sa body)
unfolding decode_sa
Returns-decode_sa body = Returns-decode_sa_loop _ body (omega arith)
