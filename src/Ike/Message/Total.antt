-- ===== src/Ike/Message/Total.antt =====
-- Decoding an IKE message reads inside its buffer and ends, on any octets.
use shuli.Base.{ℕ, ◌≡◌, List, arith, length, length-take}
use shuli.Base.Outcome.{ok, Returns, Returns-bind}
use shuli.Base.Bytes.{Returns-slice_from, Returns-slice_to, slice_to}
use shuli.Ike.Types.{IpsecErrorKind, ike_header_len}
use shuli.Ike.Header.RoundTrip.{decode-Returns, decode-length}
use shuli.Ike.Chain.Total.{Returns-decode_chain}
use shuli.Ike.Message.{decode}

length-slice_to :
    (xs ys : List ℕ) (b : ℕ) → slice_to {E = IpsecErrorKind} xs b ≡ ok ys → length ys ≡ b
unfolding slice_to
length-slice_to xs ys b e = ground (arith, length-take b xs)

-- Any buffer is decoded or refused: the codec has no read out of range and no endless loop.
pub Returns-decode : (buffer : List ℕ) → Returns (decode buffer)
unfolding decode
Returns-decode buffer = Returns-bind _ _ (decode-Returns buffer) λ header e.
    let (covers, fits) = decode-length buffer header e in
    Returns-bind _ _ (Returns-slice_to _ buffer header.length fits) λ octets e'.
      Returns-bind _ _
        (Returns-slice_from _ octets ike_header_len
          (omega (arith, length-slice_to buffer octets header.length e', covers)))
        λ chain _. Returns-bind _ _ (Returns-decode_chain header.next_payload chain) λ _ _. tt
