-- ===== src/Ike/Selector.antt =====
-- `encode_ts_selector` and `decode_ts` of ipsec/ikev2/codec.rs: the selectors of a TS payload.
pub mod RoundTrip
pub mod Total
use shuli.Base.{
  ℕ, zero, suc, ◌+◌, List, [], ◌∷◌, ◌++◌, length, drop, ltb, not, ◌||◌, ◌==◌, if◌then◌else◌,
}
use shuli.Base.Outcome.{Outcome, ok, err, refuse_if, ◌>>=◌, ◌>>◌}
use shuli.Base.Bytes.{byte, u16_at, slice, be16, as_u8}
use shuli.Ike.Types.{IpsecErrorKind, ike, no_support, IpAddr, v4, v6, TsSelector}

abbrev pub selector_mismatch : ℕ → Outcome IpsecErrorKind (ℕ × List ℕ)
selector_mismatch ts_type = if ts_type == 7 || ts_type == 8 then err ike else err no_support

-- The `match` on the selector's type and addresses: the length field and the address octets.
unfoldable pub selector_addresses : ℕ → IpAddr → IpAddr → Outcome IpsecErrorKind (ℕ × List ℕ)
selector_addresses ts_type (v4 start) (v4 end) =
    if ts_type == 7 then ok (16, start ++ end) else selector_mismatch ts_type
selector_addresses ts_type (v6 start) (v6 end) =
    if ts_type == 8 then ok (40, start ++ end) else selector_mismatch ts_type
selector_addresses ts_type _ _ = selector_mismatch ts_type

-- The octets that the source pushes onto its buffer.
unfoldable pub encode_ts_selector : TsSelector → Outcome IpsecErrorKind (List ℕ)
encode_ts_selector selector = do
  (len, addresses) ← selector_addresses selector.ts_type selector.start selector.end
  ok (
      (selector.ts_type ∷ selector.protocol ∷ [])
      ++ (be16 len ++ (be16 selector.start_port ++ (be16 selector.end_port ++ addresses))))

unfoldable pub encode_selectors : List TsSelector → Outcome IpsecErrorKind (List ℕ)
encode_selectors [] = ok []
encode_selectors (selector ∷ rest) = do
  head ← encode_ts_selector selector
  tail ← encode_selectors rest
  ok (head ++ tail)

-- `Payload::Ts` in `encode_body`.
unfoldable pub encode_ts : List TsSelector → Outcome IpsecErrorKind (List ℕ)
encode_ts selectors = do
  octets ← encode_selectors selectors
  ok ((as_u8 (length selectors) ∷ 0 ∷ 0 ∷ 0 ∷ []) ++ octets)

-- The `match ts_type` of `decode_ts`: the two addresses.
unfoldable pub decode_addresses : ℕ → ℕ → List ℕ → Outcome IpsecErrorKind (IpAddr × IpAddr)
decode_addresses ts_type len rest =
    let four = (do
      refuse_if (not (len == 16)) ike
      start ← slice rest 8 12
      end ← slice rest 12 16
      ok (v4 start, v4 end)) in
    let six = (do
      refuse_if (not (len == 40)) ike
      start ← slice rest 8 24
      end ← slice rest 24 40
      ok (v6 start, v6 end)) in
    if ts_type == 7 then four else if ts_type == 8 then six else err no_support

-- One selector, and its length.
unfoldable pub decode_selector : List ℕ → Outcome IpsecErrorKind (TsSelector × ℕ)
decode_selector rest = do
  refuse_if (ltb (length rest) 8) ike
  ts_type ← byte rest 0
  protocol ← byte rest 1
  len ← u16_at rest 2
  refuse_if (ltb len 8 || ltb (length rest) len) ike
  start_port ← u16_at rest 4
  end_port ← u16_at rest 6
  (start, end) ← decode_addresses ts_type len rest
  ok (
    record {
      ts_type = ts_type;
      protocol = protocol;
      start_port = start_port;
      end_port = end_port;
      start = start;
      end = end;
    },
    len,
  )

-- `for _ in 0..count`
unfoldable pub decode_selectors : ℕ → List ℕ → Outcome IpsecErrorKind (List TsSelector)
decode_selectors zero rest = ok []
decode_selectors (suc count) rest = do
  (selector, len) ← decode_selector rest
  selectors ← decode_selectors count (drop len rest)
  ok (selector ∷ selectors)

unfoldable pub decode_ts : List ℕ → Outcome IpsecErrorKind (List TsSelector)
decode_ts body = do
  refuse_if (ltb (length body) 4) ike
  count ← byte body 0
  decode_selectors count (drop 4 body)
