-- ===== src/Ike/Selector/Total.antt =====
-- Decoding a TS payload reads inside its buffer, on any octets.
use shuli.Base.{ℕ, zero, suc, ◌≤◌, List, arith, length, drop}
use shuli.Base.Outcome.{Returns, Returns-bind, Returns-if}
use shuli.Base.Bytes.{returns_rules}
use shuli.Ike.Selector.{decode_addresses, decode_selector, decode_selectors, decode_ts}

Returns-decode_addresses :
    (ts_type len : ℕ) (rest : List ℕ)
    → len ≤ length rest
    → Returns (decode_addresses ts_type len rest)
unfolding decode_addresses
Returns-decode_addresses ts_type len rest h = search (Returns-if, returns_rules, arith) depth 40

Returns-decode_selector : (rest : List ℕ) → Returns (decode_selector rest)
unfolding decode_selector
Returns-decode_selector rest = search (returns_rules, Returns-decode_addresses, arith) depth 40

Returns-decode_selectors : (count : ℕ) (rest : List ℕ) → Returns (decode_selectors count rest)
unfolding decode_selectors
Returns-decode_selectors zero rest = tt
Returns-decode_selectors (suc count) rest =
    Returns-bind _ _ (Returns-decode_selector rest)
      λ (s, len) e. Returns-bind _ _ (Returns-decode_selectors count (drop len rest)) λ _ _. tt

-- On any octets `decode_ts` returns selectors or an error.
pub Returns-decode_ts : (body : List ℕ) → Returns (decode_ts body)
unfolding decode_ts
Returns-decode_ts body = search (returns_rules, Returns-decode_selectors, arith) depth 40
