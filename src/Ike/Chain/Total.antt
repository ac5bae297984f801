-- ===== src/Ike/Chain/Total.antt =====
-- Decoding a chain of payloads reads inside its buffer and ends, on any octets.
use shuli.Base.{ℕ, zero, suc, ◌+◌, ◌≤◌, ◌<◌, ◌≡◌, List, [], ◌∷◌, arith, length, length-drop, ◌==◌}
use shuli.Base.Outcome.{ok, Returns, Returns-bind, Returns-if}
use shuli.Base.Bytes.{returns_rules, slice, slice_from}
use shuli.Ike.Types.{Payload, none_payload, sk_payload}
use shuli.Ike.Payload.Total.{Returns-decode_payload}
use shuli.Ike.Chain.{no_trailing, split_payload, decode_chain_loop, decode_chain}

Returns-split_payload : (octets : List ℕ) → Returns (split_payload octets)
unfolding split_payload
Returns-split_payload octets = search (returns_rules, arith) depth 40

-- A generic header takes four octets.
split_payload-shorter :
    (octets : List ℕ) (next : ℕ) (body rest : List ℕ)
    → split_payload octets ≡ ok (next, body, rest)
    → length rest + 4 ≤ length octets
unfolding split_payload slice_from slice
split_payload-shorter octets next body rest e = grind (arith, length-drop {0})

Returns-no_trailing :
    (rest : List ℕ) (payloads : List Payload) → Returns (no_trailing rest payloads)
Returns-no_trailing [] payloads = tt
Returns-no_trailing (x ∷ rest) payloads = tt

Returns-decode_chain_loop :
    (fuel kind : ℕ) (octets : List ℕ)
    → length octets < fuel
    → Returns (decode_chain_loop fuel kind octets)
unfolding decode_chain_loop
Returns-decode_chain_loop zero kind octets h = absurd (omega arith)
Returns-decode_chain_loop (suc fuel) kind octets h =
    Returns-if (kind == none_payload) _ _ (Returns-no_trailing octets []) (
      Returns-bind _ _ (Returns-split_payload octets) λ (next, body, rest) e.
        Returns-bind _ _ (Returns-decode_payload kind body next) λ payload _.
          Returns-if (kind == sk_payload) _ _ (Returns-no_trailing rest (payload ∷ [])) (
            Returns-bind _ _
              (Returns-decode_chain_loop fuel next rest
                (omega (arith, split_payload-shorter octets next body rest e)))
              λ _ _. tt))

-- Whatever the first type and the octets, a chain is decoded or refused: no read is out of range
-- and no fuel runs out.
pub Returns-decode_chain :
    (first_type : ℕ) (octets : List ℕ) → Returns (decode_chain first_type octets)
unfolding decode_chain
Returns-decode_chain first_type octets = Returns-decode_chain_loop _ first_type octets (omega arith)
