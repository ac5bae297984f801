-- ===== src/Wired/Mka/Pdu/Frame.antt =====
-- The EAPOL frame around an MKPDU of wired/mka.rs: `compute_icv`, `verify_icv`, `MkaPdu::parse` and
-- `MkaPdu::build_eapol`.
use shuli.Base.{
  ℕ, ◌+◌, ◌-◌, ◌%◌, Bool, true, false, not, Option, none, some, List, [], ◌∷◌, ◌++◌, length, ltb,
  ◌==◌, ◌&&◌, ◌||◌, if◌then◌else◌,
}
use shuli.Base.Outcome.{Outcome, ok, refuse_if, ◌>>=◌, ◌>>◌}
use shuli.Base.Bytes.{byte, slice, slice_from, slice_to, u16_at, be16}
use shuli.Core.Types.{ErrorKind, handshake_failed}
use shuli.Wired.Mka.Types.{MkaPdu, eapol_type_mka, eapol_version, icv_len}
use shuli.Wired.Mka.Kdf.{Primitives, cmac_aes}
use shuli.Wired.Mka.Pdu.Read.{parse_body}
use shuli.Wired.Mka.Pdu.Write.{write_body}

-- `zip`, `diff |= a ^ b` and `diff == 0`: the octets that stand in both lists are equal.
unfoldable pub zip_eq : List ℕ → List ℕ → Bool
zip_eq [] icv = true
zip_eq (x ∷ xs) [] = true
zip_eq (x ∷ xs) (y ∷ ys) = x == y && zip_eq xs ys

-- `else { return false; }` where no tag is computed.
abbrev pub tag_matches : Outcome ErrorKind (List ℕ) → List ℕ → Bool
tag_matches (ok expected) icv = zip_eq expected icv
tag_matches _ icv = false

-- The frame up to its ICV.
unfoldable pub frame_of : List ℕ → List ℕ
frame_of body = eapol_version ∷ eapol_type_mka ∷ (be16 (length body + icv_len) ++ body)

module _ (c : Primitives) where
  -- 0x888e is the Ethertype of EAPOL.
  unfoldable pub compute_icv : List ℕ → List ℕ → List ℕ → List ℕ → Outcome ErrorKind (List ℕ)
  compute_icv ick da sa eapol = cmac_aes c ick (da ++ (sa ++ (be16 34958 ++ eapol)))

  unfoldable pub verify_icv : List ℕ → List ℕ → List ℕ → List ℕ → List ℕ → Bool
  verify_icv ick da sa eapol icv = tag_matches (compute_icv ick da sa eapol) icv

  -- A frame of type MKA, from the length field on.
  unfoldable pub parse_mka : List ℕ → List ℕ → List ℕ → List ℕ → Outcome ErrorKind (Option MkaPdu)
  parse_mka eapol da sa ick = do
    body_len ← u16_at eapol 2
    refuse_if (ltb body_len (icv_len + 4) || ltb (length eapol) (4 + body_len)) handshake_failed
    refuse_if (not (body_len % 4 == 0)) handshake_failed
    covered ← slice_to eapol (4 + body_len - icv_len)
    icv ← slice_from eapol (4 + body_len - icv_len)
    refuse_if (not (verify_icv ick da sa covered icv)) handshake_failed
    body ← slice eapol 4 (4 + body_len - icv_len)
    pdu ← parse_body body
    ok (some pdu)

  unfoldable pub parse : List ℕ → List ℕ → List ℕ → List ℕ → Outcome ErrorKind (Option MkaPdu)
  parse eapol da sa ick =
      let typed = (do
        kind ← byte eapol 1
        if kind == eapol_type_mka then parse_mka eapol da sa ick else ok none) in
      if ltb (length eapol) 4 then ok none else typed

  unfoldable pub build_eapol : MkaPdu → List ℕ → List ℕ → List ℕ → Outcome ErrorKind (List ℕ)
  build_eapol pdu da sa ick = do
    refuse_if (ltb 65535 (length (write_body pdu) + icv_len)) handshake_failed
    icv ← compute_icv ick da sa (frame_of (write_body pdu))
    ok (frame_of (write_body pdu) ++ icv)
