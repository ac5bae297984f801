-- ===== src/Ike/Payload/Total.antt =====
-- Decoding a payload reads inside its buffer and ends, on any octets.
use shuli.Base.{
  ℕ, zero, suc, ◌+◌, ◌*◌, ◌≤◌, ◌<◌, List, arith, length, drop, length-drop, Bool, false, leb, ltb,
  ◌||◌, leb→le, Bool-cases, inl, inr, ◌==◌, ◌≡◌,
}
use shuli.Base.Outcome.{Returns, Returns-bind, Returns-if}
use shuli.Base.Bytes.{returns_rules}
use shuli.Ike.Types.{Payload}
use shuli.Ike.Sa.Total.{Returns-decode_sa}
use shuli.Ike.Selector.Total.{Returns-decode_ts}
use shuli.Ike.Payload.{
  decode_spi, decode_spis, decode_delete, decode_notify, decode_config, decode_plain, decode_ke,
  decode_payload,
}

Returns-decode_spi :
    (spi_size : ℕ) (rest : List ℕ) → spi_size ≤ length rest → Returns (decode_spi spi_size rest)
unfolding decode_spi
Returns-decode_spi spi_size rest h = elim (Bool-cases (spi_size == 4)) [
  | inl four ↦ rw four (search (returns_rules, arith) depth 40)
  | inr e ↦ rw e (elim (Bool-cases (spi_size == 8)) [
    | inl eight ↦ rw eight (search (returns_rules, arith) depth 40)
    | inr e' ↦ rw e' tt
  ])
]

Returns-decode_spis :
    (count spi_size : ℕ) (rest : List ℕ)
    → count * spi_size ≤ length rest
    → Returns (decode_spis count spi_size rest)
unfolding decode_spis
Returns-decode_spis zero spi_size rest h = tt
Returns-decode_spis (suc count) spi_size rest h =
    Returns-bind _ _ (Returns-decode_spi spi_size rest (omega arith)) λ spi _.
      Returns-bind _ _
        (Returns-decode_spis count spi_size (drop spi_size rest)
          (omega (arith, length-drop spi_size rest)))
        λ _ _. tt

-- What the test of `decode_delete` leaves.
fits_delete :
    (count spi_size : ℕ) (body : List ℕ) (b : Bool)
    → (b || ltb (length body) (4 + count * spi_size)) ≡ false
    → count * spi_size ≤ length (drop 4 body)
fits_delete count spi_size body h = ground (arith, length-drop 4 body)

Returns-decode_delete : (body : List ℕ) → Returns (decode_delete body)
unfolding decode_delete
Returns-decode_delete body =
    search (returns_rules, Returns-decode_spis, fits_delete, arith) depth 40

Returns-decode_notify : (body : List ℕ) → Returns (decode_notify body)
unfolding decode_notify
Returns-decode_notify body = search (returns_rules, arith) depth 40

Returns-decode_config :
    (fuel : ℕ) (rest : List ℕ) → length rest < fuel → Returns (decode_config fuel rest)
unfolding decode_config
Returns-decode_config zero rest h = absurd (omega arith)
Returns-decode_config (suc fuel) rest h = elim (Bool-cases (leb 4 (length rest))) [
  | inl more ↦
      let four : 4 ≤ length rest = leb→le _ _ more in
      let shorter : (len : ℕ) → Returns (decode_config fuel (drop (4 + len) rest)) = λ len.
        Returns-decode_config fuel (drop (4 + len) rest)
          (omega (arith, length-drop (4 + len) rest)) in
      rw more (search (returns_rules, shorter, arith) depth 40)
  | inr done ↦ rw done tt
]

Returns-decode_plain :
    (size : ℕ) (build : ℕ → List ℕ → Payload) (body : List ℕ)
    → 1 ≤ size
    → Returns (decode_plain size build body)
unfolding decode_plain
Returns-decode_plain size build body h = search (returns_rules, arith) depth 40

Returns-decode_ke : (body : List ℕ) → Returns (decode_ke body)
unfolding decode_ke
Returns-decode_ke body = search (returns_rules, arith) depth 40

-- Whatever its type and octets, a payload is decoded or refused.
pub Returns-decode_payload :
    (kind : ℕ) (body : List ℕ) (next : ℕ) → Returns (decode_payload kind body next)
unfolding decode_payload
Returns-decode_payload kind body next =
    search
      (
        Returns-if, returns_rules, Returns-decode_ke, Returns-decode_plain, Returns-decode_delete,
        Returns-decode_notify, Returns-decode_sa, Returns-decode_ts, Returns-decode_config, arith,
      )
      depth 40
