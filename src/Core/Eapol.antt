-- ===== src/Core/Eapol.antt =====
-- `EapolEapFrame` of core/eapol.rs. A parser's `None` is `err tt`.
use shuli.Base.{
  ℕ, ◌+◌, ◌/◌, ◌%◌, ◌^◌, ◌≡◌, List, [], ◌∷◌, ◌++◌, length, ltb, not, ◌==◌, arith, length-append,
}
use shuli.Base.Outcome.{Outcome, ok, refuse_if, ◌>>=◌, ◌>>◌, Returns}
use shuli.Base.Bytes.{
  byte, u16_at, slice, be16, as_u16, IsU16, from_be16-be16, slice-append, returns_rules,
}

-- A frame is its payload.
pub record EapolEapFrame : Type 0 where
  pub payload : List ℕ

unfoldable pub build : List ℕ → List ℕ
build eap = (2 ∷ 0 ∷ []) ++ (be16 (as_u16 (length eap)) ++ eap)

unfoldable pub parse : List ℕ → Outcome (Unit {0}) EapolEapFrame
parse pdu = do
  refuse_if (ltb (length pdu) 4) tt
  kind ← byte pdu 1
  refuse_if (not (kind == 0)) tt
  len ← u16_at pdu 2
  refuse_if (ltb (length pdu) (4 + len)) tt
  payload ← slice pdu 4 (4 + len)
  ok (record { payload = payload })

-- An EAP packet of at most 65535 octets is read back from its frame, whatever pads the frame.
pub parse-build :
    (eap padding : List ℕ)
    → IsU16 (length eap)
    → parse (build eap ++ padding) ≡ ok (record { payload = eap })
unfolding parse build
parse-build eap padding h = ground (
  arith,
  from_be16-be16 (length eap),
  length-append eap padding,
  slice-append {E = Unit {0}}
      (2 ∷ 0 ∷ as_u16 (length eap) / 2 ^ 8 % 2 ^ 8 ∷ as_u16 (length eap) % 2 ^ 8 ∷ []) eap padding,
)

-- Parsing a frame never reads out of it.
pub Returns-parse_frame : (pdu : List ℕ) → Returns (parse pdu)
unfolding parse
Returns-parse_frame pdu = search (returns_rules, arith) depth 40
