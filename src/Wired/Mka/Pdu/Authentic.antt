-- ===== src/Wired/Mka/Pdu/Authentic.antt =====
-- A frame is parsed only with a tag of the ICK, and a frame that `build_eapol` writes is parsed
-- back.
use shuli.Base.{
  ℕ, zero, suc, ◌+◌, ◌-◌, ◌%◌, ◌≤◌, ◌≡◌, refl, sym, ap, ◌∙◌, some, List, [], ◌∷◌, ◌++◌, arith,
  length, take, drop, take-append-drop, take-nil, length-drop, length-append, append_assoc, true,
  false, not, not-eq-false, Bool-cases, ◌==◌, ◌||◌, ==_refl, ==_iff, ltb, inl, inr,
}
use shuli.Base.Outcome.{Outcome, ok, err, panic, out_of_fuel, ◌>>=◌, >>=-eq-ok, refuse_if-eq-ok}
use shuli.Base.Bytes.{
  byte, slice, slice_to, slice_from, be16, u16_at, from_be16-be16, slice_to-append,
  slice_from-append, slice_to-eq-ok, slice_from-eq-ok, slice-eq-ok,
}
use shuli.Base.Fields.{slice-between}
use shuli.Core.Types.{ErrorKind, handshake_failed}
use shuli.Wired.Mka.Types.{MkaPdu}
use shuli.Wired.Mka.Kdf.{Primitives, Documented, is_aes_key, cmac_aes}
use shuli.Wired.Mka.Pdu.Read.{parse_body}
use shuli.Wired.Mka.Pdu.Write.{write_body}
use shuli.Wired.Mka.Pdu.Frame.{
  zip_eq, compute_icv, verify_icv, parse_mka, parse, frame_of, build_eapol,
}
use shuli.Wired.Mka.Pdu.Loop.{IsWirePdu}
use shuli.Wired.Mka.Pdu.RoundTrip.{length-write_body, parse_body-write_body}

map-eq-some :
    (m : Outcome ErrorKind MkaPdu) {pdu : MkaPdu}
    → (m >>= λ found. ok (some found)) ≡ ok (some pdu)
    → m ≡ ok pdu
map-eq-some (ok found) e = cc
map-eq-some (err kind) e = cc
map-eq-some panic e = cc
map-eq-some out_of_fuel e = cc

drop-take : (m n : ℕ) (xs : List ℕ) → drop m (take n xs) ≡ take (n - m) (drop m xs)
drop-take zero n xs = let all : n - 0 ≡ n = omega arith in rw all
drop-take (suc m) zero [] = let none_left : 0 - suc m ≡ 0 = omega arith in rw none_left
drop-take (suc m) zero (x ∷ xs) = let none_left : 0 - suc m ≡ 0 = omega arith in rw none_left
drop-take (suc m) (suc n) [] = sym (take-nil (suc n - suc m))
drop-take (suc m) (suc n) (x ∷ xs) =
    let step : suc n - suc m ≡ n - m = omega arith in rw step (drop-take m n xs)

zip_eq-append : (xs ys : List ℕ) → zip_eq xs (xs ++ ys) ≡ true
unfolding zip_eq
zip_eq-append [] ys = refl
zip_eq-append (x ∷ xs) ys = rw (==_refl x, zip_eq-append xs ys) refl

-- Where the lists have one length, they are equal.
zip_eq→eq :
    (xs ys : List ℕ) → zip_eq xs ys ≡ true → length xs ≤ length ys → take (length xs) ys ≡ xs
unfolding zip_eq
zip_eq→eq [] ys h k = refl
zip_eq→eq (x ∷ xs) [] h k = absurd (omega arith)
zip_eq→eq (x ∷ xs) (y ∷ ys) h k = ground (arith, zip_eq→eq xs ys)

-- What `parse` comes to by its parts.
parse-parts :
    (c : Primitives) (da sa ick frame covered icv body : List ℕ) (body_len : ℕ) (pdu : MkaPdu)
    → 4 ≤ length frame
    → byte {E = ErrorKind} frame 1 ≡ ok 5
    → u16_at {E = ErrorKind} frame 2 ≡ ok body_len
    → 20 ≤ body_len
    → 4 + body_len ≤ length frame
    → body_len % 4 ≡ 0
    → slice_to {E = ErrorKind} frame (4 + body_len - 16) ≡ ok covered
    → slice_from {E = ErrorKind} frame (4 + body_len - 16) ≡ ok icv
    → verify_icv c ick da sa covered icv ≡ true
    → slice {E = ErrorKind} frame 4 (4 + body_len - 16) ≡ ok body
    → parse_body body ≡ ok pdu
    → parse c frame da sa ick ≡ ok (some pdu)
unfolding parse parse_mka
parse-parts c da sa ick frame covered icv body body_len pdu four kind len long fits words covers tag
      true_tag inner back =
    let a : ltb (length frame) 4 ≡ false = ground arith in
    let b : ltb body_len (16 + 4) ≡ false = ground arith in
    let e : ltb (length frame) (4 + body_len) ≡ false = ground arith in
    let w : (body_len % 4 == 0) ≡ true = ground arith in
    rw (a, kind, len, b, e, w, covers, tag, true_tag, inner, back) refl

module _ (c : Primitives) (d : Documented c) where
  -- Where the crate keeps what it documents and the ICK has 16 or 32 octets, an MKPDU that fits
  -- the wire format is encoded, and its frame is parsed back with the same addresses and ICK,
  -- whatever stands behind it.
  pub parse-build_eapol :
      (pdu : MkaPdu) (da sa ick trailer : List ℕ)
      → IsWirePdu pdu
      → is_aes_key ick ≡ true
      → (frame : List ℕ) × (build_eapol c pdu da sa ick ≡ ok frame)
        × (parse c (frame ++ trailer) da sa ick ≡ ok (some pdu))
  unfolding build_eapol frame_of verify_icv compute_icv cmac_aes
  parse-build_eapol pdu da sa ick trailer w aes =
      let body = write_body pdu in
      let (whole, short, long) = length-write_body pdu w in
      let f = frame_of body in
      let icv = c.cmac ick (da ++ (sa ++ (be16 34958 ++ f))) in
      let n = length body in
      let header = take 4 f in
      let build : ltb 65535 (n + 16) ≡ false = ground arith in
      let joined = append_assoc f icv trailer in
      let len = from_be16-be16 (n + 16) (omega arith) in
      let cut : 4 + (n + 16) - 16 ≡ length f = omega arith in
      let covered : slice_to {E = ErrorKind} (f ++ (icv ++ trailer)) (4 + (n + 16) - 16) ≡ ok f =
        rw cut (slice_to-append f (icv ++ trailer)) in
      let rest : slice_from {E = ErrorKind} (f ++ (icv ++ trailer)) (4 + (n + 16) - 16)
          ≡ ok (icv ++ trailer) =
        rw cut (slice_from-append f (icv ++ trailer)) in
      let inner : slice {E = ErrorKind} (f ++ (icv ++ trailer)) 4 (4 + (n + 16) - 16) ≡ ok body =
        slice-between header body (icv ++ trailer) 4 (4 + (n + 16) - 16) refl (omega arith) in
      let back = parse_body-write_body pdu w in
      let sixteen = d.cmac-length ick (da ++ (sa ++ (be16 34958 ++ f))) in
      let long_tail = length-append icv trailer in
      let fits : 4 + (n + 16) ≤ length (f ++ (icv ++ trailer)) =
        omega (arith, length-append body (icv ++ trailer)) in
      let words : (n + 16) % 4 ≡ 0 = omega arith in
      let tag : verify_icv c ick da sa f (icv ++ trailer) ≡ true =
        rw (aes, zip_eq-append icv trailer) refl in
      (
        f ++ icv,
        rw (build, aes) refl,
        rw joined (
            parse-parts c da sa ick (f ++ (icv ++ trailer)) f (icv ++ trailer) body (n + 16) pdu
              (omega arith) refl (ap ok len) (omega arith) fits words covered rest tag inner back),
      )

  -- A tag that is accepted starts the octets it is compared with.
  verify_icv-tag :
      (ick da sa covered icv : List ℕ)
      → verify_icv c ick da sa covered icv ≡ true
      → 16 ≤ length icv
      → (is_aes_key ick ≡ true) × (take 16 icv ≡ c.cmac ick (da ++ (sa ++ (be16 34958 ++ covered))))
  unfolding verify_icv compute_icv cmac_aes
  verify_icv-tag ick da sa covered icv accepted long =
      let tag = c.cmac ick (da ++ (sa ++ (be16 34958 ++ covered))) in
      let sixteen = d.cmac-length ick (da ++ (sa ++ (be16 34958 ++ covered))) in
      elim (Bool-cases (is_aes_key ick)) [
        | inl aes ↦ (aes, rw (sym sixteen) (zip_eq→eq tag icv (rw aes at accepted) (omega arith)))
        | inr other ↦ absurd (ground arith)
      ]

  -- Only a frame of type MKA has an MKPDU.
  pub parse-parse_mka :
      (eapol da sa ick : List ℕ) (pdu : MkaPdu)
      → parse c eapol da sa ick ≡ ok (some pdu)
      → (ltb (length eapol) 4 ≡ false)
        × (byte {E = ErrorKind} eapol 1 ≡ ok 5)
        × (parse_mka c eapol da sa ick ≡ ok (some pdu))
  unfolding parse
  parse-parse_mka eapol da sa ick pdu parsed = elim (Bool-cases (ltb (length eapol) 4)) [
    | inl short ↦ cc (rw short at parsed)
    | inr four ↦
        let (kind, read, typed) = >>=-eq-ok (byte eapol 1) _ (rw four at parsed) in
        elim (Bool-cases (kind == 5)) [
          | inr other ↦ cc (rw other at typed)
          | inl mka ↦ (four, read ∙ ap ok ((==_iff kind 5).0 mka), rw mka at typed)
        ]
  ]

  -- The parts of a frame that `parse_mka` accepts.
  parse_mka-parts :
      (eapol da sa ick : List ℕ) (pdu : MkaPdu)
      → parse_mka c eapol da sa ick ≡ ok (some pdu)
      → (split : ℕ) × (4 ≤ split)
        × (split + 16 ≤ length eapol)
        × (verify_icv c ick da sa (take split eapol) (drop split eapol) ≡ true)
        × (parse_body (take (split - 4) (drop 4 eapol)) ≡ ok pdu)
  unfolding parse_mka
  parse_mka-parts eapol da sa ick pdu parsed =
      let (body_len, _, sized) = >>=-eq-ok (u16_at eapol 2) _ parsed in
      let split = 4 + body_len - 16 in
      let (fits, whole) =
        refuse_if-eq-ok (ltb body_len (16 + 4) || ltb (length eapol) (4 + body_len))
          handshake_failed _ sized in
      let bounds : (20 ≤ body_len) × (4 + body_len ≤ length eapol) = ground arith in
      let (_, cut) = refuse_if-eq-ok (not (body_len % 4 == 0)) handshake_failed _ whole in
      let covers = slice_to-eq-ok {E = ErrorKind} eapol split (omega arith) in
      let rest = slice_from-eq-ok {E = ErrorKind} eapol split (omega arith) in
      let inner = slice-eq-ok {E = ErrorKind} eapol 4 split (omega arith) (omega arith) in
      let (accepted, read) =
        refuse_if-eq-ok (not (verify_icv c ick da sa (take split eapol) (drop split eapol)))
          handshake_failed _ (rw (covers, rest) at cut) in
      let said = map-eq-some (parse_body (take (split - 4) (drop 4 eapol))) (rw inner at read) in
      (split, omega arith, omega arith, not-eq-false _ accepted, said)

  -- Where the crate keeps what it documents, a frame is parsed only under an ICK of 16 or 32
  -- octets; it then consists of the octets that are covered, their tag under the ICK and the
  -- addresses, and a trailer, and the MKPDU is what the covered octets behind their header say.
  pub parse-Authentic :
      (eapol da sa ick : List ℕ) (pdu : MkaPdu)
      → parse c eapol da sa ick ≡ ok (some pdu)
      → (covered : List ℕ) × (trailer : List ℕ) × (eapol
          ≡ covered ++ (c.cmac ick (da ++ (sa ++ (be16 34958 ++ covered))) ++ trailer))
        × (is_aes_key ick ≡ true)
        × (parse_body (drop 4 covered) ≡ ok pdu)
  parse-Authentic eapol da sa ick pdu parsed =
      let (_, _, typed) = parse-parse_mka eapol da sa ick pdu parsed in
      let (split, four, fits, accepted, said) = parse_mka-parts eapol da sa ick pdu typed in
      let covered = take split eapol in
      let rest = drop split eapol in
      let (aes, tag) =
        verify_icv-tag ick da sa covered rest accepted (omega (arith, length-drop split eapol)) in
      let whole : eapol ≡ covered ++ (take 16 rest ++ drop 16 rest) =
        rw (take-append-drop 16 rest) (sym (take-append-drop split eapol)) in
      let cut : drop 4 covered ≡ take (split - 4) (drop 4 eapol) = drop-take 4 split eapol in
      (covered, drop 16 rest, rw tag at whole, aes, rw cut said)
