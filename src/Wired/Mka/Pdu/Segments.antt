-- ===== src/Wired/Mka/Pdu/Segments.antt =====
-- One parameter set among the others: what is written for it, and how the loop reads it.
use shuli.Base.{
  ℕ, zero, suc, ◌+◌, ◌-◌, ◌%◌, ◌≤◌, ◌<◌, ◌≡◌, refl, sym, ap, ◌∙◌, List, [], ◌∷◌, ◌++◌, arith,
  length, drop, replicate, length-append, length-replicate, drop-length_append, append-nil,
  append_assoc, Bool-cases, ◌==◌, inl, inr,
}
use shuli.Base.Outcome.{ok, ◌>>=◌}
use shuli.Base.Bytes.{slice, as_u8}
use shuli.Base.Fields.{slice-between}
use shuli.Core.Types.{ErrorKind}
use shuli.Wired.Mka.Pdu.Read.{align4, twelve_bits, Sets, read_set, read_sets}
use shuli.Wired.Mka.Pdu.Write.{high_bits, pad_loop, pad4, set_header}

-- The zeros that bring `n` octets to a multiple of four.
abbrev pub padding : ℕ → List ℕ
padding n = replicate ((4 - n % 4) % 4) 0

pad_loop-octets :
    (rounds : ℕ) (octets : List ℕ)
    → (4 - length octets % 4) % 4 ≤ rounds
    → pad_loop rounds octets ≡ octets ++ padding (length octets)
unfolding pad_loop
pad_loop-octets zero octets h =
    let nothing : (4 - length octets % 4) % 4 ≡ 0 = omega arith in
    rw nothing (sym (append-nil octets))
pad_loop-octets (suc rounds) octets h = elim (Bool-cases (length octets % 4 == 0)) [
  | inl done ↦
      let nothing : (4 - length octets % 4) % 4 ≡ 0 = ground arith in
      rw (done, nothing) (sym (append-nil octets))
  | inr more ↦
      let longer : length (octets ++ (0 ∷ [])) ≡ length octets + 1 =
        length-append octets (0 ∷ []) in
      let odd : ¬ (length octets % 4 ≡ 0) = ground arith in
      let step : (4 - length octets % 4) % 4 ≡ suc ((4 - length (octets ++ (0 ∷ [])) % 4) % 4) =
        omega arith in
      rw more (
        pad_loop-octets rounds (octets ++ (0 ∷ [])) (omega arith)
        ∙ (append_assoc octets (0 ∷ []) (padding (length (octets ++ (0 ∷ []))))
            ∙ ap (λ n. octets ++ replicate n 0) (sym step)))
]

pub pad4-octets : (octets : List ℕ) → pad4 octets ≡ octets ++ padding (length octets)
unfolding pad4
pad4-octets octets = pad_loop-octets 3 octets (omega arith)

-- A set with its header and its padding.
unfoldable pub segment : ℕ → ℕ → ℕ → List ℕ → List ℕ
segment type_ octet2 flags octets =
    set_header type_ octet2 flags (length octets) ++ (octets ++ padding (length octets))

-- A segment has whole words, and its header and padding are at most seven octets.
pub length-segment :
    (type_ octet2 flags : ℕ) (octets : List ℕ)
    → (length (segment type_ octet2 flags octets) % 4 ≡ 0)
      × (length (segment type_ octet2 flags octets) ≤ 7 + length octets)
unfolding segment set_header
length-segment type_ octet2 flags octets =
    let long = length-append octets (padding (length octets)) in
    let zeros = length-replicate {A = ℕ} ((4 - length octets % 4) % 4) 0 in
    (omega arith, omega arith)

-- A set written behind whole words is a segment.
pub pad4-segment :
    (body : List ℕ) (type_ octet2 flags : ℕ) (octets : List ℕ)
    → length body % 4 ≡ 0
    → pad4 (body ++ (set_header type_ octet2 flags (length octets) ++ octets))
      ≡ body ++ segment type_ octet2 flags octets
unfolding segment set_header
pad4-segment body type_ octet2 flags octets whole =
    let header = set_header type_ octet2 flags (length octets) in
    let measured = length-append body (header ++ octets) in
    let same : (4 - length (body ++ (header ++ octets)) % 4) % 4 ≡ (4 - length octets % 4) % 4 =
      omega arith in
    pad4-octets (body ++ (header ++ octets))
    ∙ (ap (λ n. (body ++ (header ++ octets)) ++ replicate n 0) same
        ∙ append_assoc body (header ++ octets) (padding (length octets)))

-- The loop reads the set that stands first, and goes on behind its padding.
pub read_sets-segment :
    (fuel type_ octet2 flags : ℕ) (octets rest : List ℕ) (sets : Sets)
    → flags % 16 ≡ 0
    → length octets < 4096
    → read_sets (suc fuel) (segment type_ octet2 flags octets ++ rest) sets ≡ (
        read_set type_ octet2 (flags + high_bits (length octets)) octets sets
        >>= read_sets fuel rest)
unfolding read_sets segment set_header high_bits align4 twelve_bits
read_sets-segment fuel type_ octet2 flags octets rest sets clear small =
    let n = length octets in
    let header = type_ ∷ octet2 ∷ (flags + high_bits n) ∷ as_u8 n ∷ [] in
    let padded = octets ++ padding n in
    let decoded : twelve_bits (flags + high_bits n) (as_u8 n) ≡ n = omega arith in
    let zeros = length-replicate {A = ℕ} ((4 - n % 4) % 4) 0 in
    let long = length-append octets (padding n) in
    let longer = length-append padded rest in
    let whole : align4 n ≡ length padded = omega arith in
    let taken : slice {E = ErrorKind} (header ++ (padded ++ rest)) 4 (4 + n) ≡ ok octets =
      rw (append_assoc octets (padding n) rest)
        (slice-between header octets (padding n ++ rest) 4 (4 + n) refl refl) in
    let left : drop (4 + align4 n) (header ++ (padded ++ rest)) ≡ rest =
      let four : 4 + align4 n ≡ suc (suc (suc (suc (length padded)))) = omega arith in
      rw four (drop-length_append padded rest) in
    rw (decoded, taken, left) (ground arith)
