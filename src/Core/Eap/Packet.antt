-- ===== src/Core/Eap/Packet.antt =====
-- Building and parsing EAP packets.
use shuli.Base.{
  ℕ, ◌+◌, ◌/◌, ◌%◌, ◌^◌, ◌≤◌, ◌≡◌, ◌⊎◌, Option, none, some, List, [], ◌∷◌, ◌++◌, length, arith,
  length-append,
}
use shuli.Base.Outcome.{ok, Returns, Returns-bind, Returns-if, ◌>>=◌}
use shuli.Base.Bytes.{slice, as_u16, from_be16-be16, slice-append, returns_rules, Returns-slice}
use shuli.Core.Eap.{EapPacket, build, parse, parse_type}

-- A Request or Response has a type, a Success or Failure has neither type nor body, and the length
-- fits its field.
abbrev IsWire : Option ℕ → ℕ → List ℕ → Type 0
IsWire none code body = ((code ≡ 3) ⊎ (code ≡ 4)) × (body ≡ [])
IsWire (some t) code body = ((code ≡ 1) ⊎ (code ≡ 2)) × (5 + length body ≤ 65535)

abbrev pub IsWirePacket : EapPacket → Type 0
IsWirePacket p = IsWire p.type_ p.code p.body

parse-build-result :
    (code identifier : ℕ) (rest : List ℕ)
    → (code ≡ 3) ⊎ (code ≡ 4)
    → parse (build code identifier none [] ++ rest)
      ≡ ok (record { code = code; identifier = identifier; type_ = none; body = [] })
unfolding parse parse_type build slice
parse-build-result code identifier rest h = ground arith

parse-build-typed :
    (code identifier t : ℕ) (body rest : List ℕ)
    → (code ≡ 1) ⊎ (code ≡ 2)
    → 5 + length body ≤ 65535
    → parse (build code identifier (some t) body ++ rest)
      ≡ ok (record { code = code; identifier = identifier; type_ = some t; body = body })
unfolding parse parse_type build
parse-build-typed code identifier t body rest h k = ground (
  arith,
  from_be16-be16 (as_u16 (5 + length body)),
  length-append body rest,
  slice-append {E = Unit {0}}
      (code
        ∷ identifier
        ∷ as_u16 (5 + length body) / 2 ^ 8 % 2 ^ 8
        ∷ as_u16 (5 + length body) % 2 ^ 8
        ∷ t
        ∷ [])
      body rest,
)

parse-build_parts :
    (code identifier : ℕ) (type_ : Option ℕ) (body rest : List ℕ)
    → IsWire type_ code body
    → parse (build code identifier type_ body ++ rest)
      ≡ ok (record { code = code; identifier = identifier; type_ = type_; body = body })
parse-build_parts code identifier none body rest (h, e) =
    rw e (parse-build-result code identifier rest h)
parse-build_parts code identifier (some t) body rest (h, k) =
    parse-build-typed code identifier t body rest h k

-- A Request or Response with a type and at most 65530 octets of body, or a Success or Failure
-- without type and body, is read back from what `build` wrote, whatever follows it.
pub parse-build_packet :
    (p : EapPacket) (rest : List ℕ)
    → IsWirePacket p
    → parse (build p.code p.identifier p.type_ p.body ++ rest) ≡ ok p
parse-build_packet p rest w = parse-build_parts p.code p.identifier p.type_ p.body rest w

module _ (pdu : List ℕ) (code len : ℕ) (low : 4 ≤ len) (high : len ≤ length pdu) where
  Returns-parse_type : Returns (parse_type pdu code len)
  unfolding parse_type
  Returns-parse_type = search (returns_rules, Returns-if, arith) depth 40

  parse_type-start :
      (type_ : Option ℕ) (start : ℕ) → parse_type pdu code len ≡ ok (type_, start) → start ≤ len
  unfolding parse_type
  parse_type-start type_ start e = ground arith

  Returns-body :
      (identifier : ℕ)
      → Returns {A = EapPacket} (
          parse_type pdu code len >>= λ (t, start).
          (slice pdu start len >>= λ body.
          ok (record { code = code; identifier = identifier; type_ = t; body = body })))
  Returns-body identifier = Returns-bind _ _ Returns-parse_type λ (t, start) e.
      Returns-bind _ _ (Returns-slice _ pdu start len (parse_type-start t start e) high) λ _ _. tt

-- Parsing a packet never reads out of it.
pub Returns-parse_packet : (pdu : List ℕ) → Returns (parse pdu)
unfolding parse
Returns-parse_packet pdu = search (returns_rules, Returns-body, arith) depth 40
