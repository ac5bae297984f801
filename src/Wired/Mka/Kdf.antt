-- ===== src/Wired/Mka/Kdf.antt =====
-- The key hierarchy of wired/mka.rs. What the crates `cmac` and `aes_kw` compute is the parameter
-- `Primitives`.
pub mod Blocks
pub mod Laws
use shuli.Base.{
  ℕ, zero, suc, ◌+◌, ◌-◌, ◌*◌, ◌%◌, ◌≤◌, ◌⊎◌, ◌≡◌, min, Bool, true, false, not, Option, none, some,
  List, [], ◌∷◌, ◌++◌, length, take, drop, replicate, ltb, ◌==◌, ◌||◌, ◌&&◌, if◌then◌else◌,
  bytes_le,
}
use shuli.Base.Outcome.{Outcome, ok, err, out_of_fuel, refuse_if, ◌>>=◌, ◌>>◌}
use shuli.Base.Bytes.{be16, slice_to}
use shuli.Core.Types.{ErrorKind, handshake_failed}

-- AES-CMAC, and AES key wrap and unwrap, of a key of 16 or 32 octets; `none` where the crate
-- reports an error.
pub record Primitives : Type 0 where
  pub cmac : List ℕ → List ℕ → List ℕ
  pub wrap : List ℕ → List ℕ → Option (List ℕ)
  pub unwrap : List ℕ → List ℕ → Option (List ℕ)

-- "IEEE8021 KEK", "IEEE8021 ICK", "IEEE8021 EAP CAK" and "IEEE8021 EAP CKN".
abbrev ieee8021 : List ℕ
ieee8021 = 73 ∷ 69 ∷ 69 ∷ 69 ∷ 56 ∷ 48 ∷ 50 ∷ 49 ∷ 32 ∷ []

abbrev pub kek_label : List ℕ
kek_label = ieee8021 ++ (75 ∷ 69 ∷ 75 ∷ [])

abbrev pub ick_label : List ℕ
ick_label = ieee8021 ++ (73 ∷ 67 ∷ 75 ∷ [])

abbrev pub eap_cak_label : List ℕ
eap_cak_label = ieee8021 ++ (69 ∷ 65 ∷ 80 ∷ 32 ∷ 67 ∷ 65 ∷ 75 ∷ [])

abbrev pub eap_ckn_label : List ℕ
eap_ckn_label = ieee8021 ++ (69 ∷ 65 ∷ 80 ∷ 32 ∷ 67 ∷ 75 ∷ 78 ∷ [])

abbrev pub or_failed : Option (List ℕ) → Outcome ErrorKind (List ℕ)
or_failed none = err handshake_failed
or_failed (some octets) = ok octets

-- `match key.len() { 16 | 32 => .., n => Err(..) }`
abbrev pub is_aes_key : List ℕ → Bool
is_aes_key key = length key == 16 || length key == 32

-- `checked_add(1)` of a u8.
abbrev pub next_counter : ℕ → Outcome ErrorKind ℕ
next_counter counter = if ltb (counter + 1) 256 then ok (counter + 1) else err handshake_failed

-- `out[offset..offset + part.len()].copy_from_slice(part)`, in range.
unfoldable pub overwrite : List ℕ → ℕ → List ℕ → List ℕ
overwrite out offset part = take offset out ++ (part ++ drop (offset + length part) out)

-- `msg` of a round.
unfoldable pub kdf_message : List ℕ → List ℕ → ℕ → ℕ → List ℕ
kdf_message label context length_bits counter =
    counter ∷ (label ++ (0 ∷ (context ++ be16 length_bits)))

unfoldable pub keyid_from_ckn : List ℕ → List ℕ
keyid_from_ckn ckn = overwrite (replicate 16 0) 0 (take (min (length ckn) 16) ckn)

-- `(lo, hi)`
unfoldable pub in_order : List ℕ → List ℕ → List ℕ
in_order mac1 mac2 = if bytes_le mac1 mac2 then mac1 ++ mac2 else mac2 ++ mac1

module _ (c : Primitives) where
  unfoldable pub cmac_aes : List ℕ → List ℕ → Outcome ErrorKind (List ℕ)
  cmac_aes key msg = if is_aes_key key then ok (c.cmac key msg) else err handshake_failed

  -- `while offset < out.len()`
  unfoldable pub kdf_loop :
      ℕ → List ℕ → List ℕ → List ℕ → ℕ → List ℕ → ℕ → ℕ → Outcome ErrorKind (List ℕ)
  kdf_loop zero key label context length_bits out offset counter = out_of_fuel
  kdf_loop (suc fuel) key label context length_bits out offset counter =
      let round = (do
        tag ← cmac_aes key (kdf_message label context length_bits counter)
        part ← slice_to tag (min (length out - offset) (length tag))
        next ← next_counter counter
        kdf_loop fuel key label context length_bits (overwrite out offset part)
            (offset + length part) next) in
      if ltb offset (length out) then round else ok out

  -- The counter is a u8 that starts at 1, so there are at most 255 rounds.
  unfoldable pub aes_kdf : List ℕ → List ℕ → List ℕ → List ℕ → Outcome ErrorKind (List ℕ)
  aes_kdf key label context out = do
    refuse_if (ltb 65535 (length out * 8)) handshake_failed
    kdf_loop 256 key label context (length out * 8) out 0 1

  unfoldable pub derive_kek : List ℕ → List ℕ → Outcome ErrorKind (List ℕ)
  derive_kek cak ckn = aes_kdf cak kek_label (keyid_from_ckn ckn) (replicate (length cak) 0)

  unfoldable pub derive_ick : List ℕ → List ℕ → Outcome ErrorKind (List ℕ)
  derive_ick cak ckn = aes_kdf cak ick_label (keyid_from_ckn ckn) (replicate (length cak) 0)

  unfoldable pub derive_eap_cak : List ℕ → List ℕ → List ℕ → Outcome ErrorKind (List ℕ)
  derive_eap_cak msk mac1 mac2 = do
    refuse_if (ltb (length msk) 16) handshake_failed
    key ← slice_to msk 16
    aes_kdf key eap_cak_label (in_order mac1 mac2) (replicate 16 0)

  unfoldable pub derive_eap_ckn : List ℕ → List ℕ → List ℕ → List ℕ → Outcome ErrorKind (List ℕ)
  derive_eap_ckn msk session_id mac1 mac2 = do
    refuse_if (ltb (length msk) 16) handshake_failed
    key ← slice_to msk 16
    aes_kdf key eap_ckn_label (session_id ++ in_order mac1 mac2) (replicate 16 0)

  unfoldable pub wrap_key : List ℕ → List ℕ → Outcome ErrorKind (List ℕ)
  wrap_key kek plaintext =
      if is_aes_key kek then or_failed (c.wrap kek plaintext) else err handshake_failed

  unfoldable pub unwrap_key : List ℕ → List ℕ → Outcome ErrorKind (List ℕ)
  unwrap_key kek wrapped = do
    refuse_if (ltb (length wrapped) 16 || not (length wrapped % 8 == 0)) handshake_failed
    if is_aes_key kek then or_failed (c.unwrap kek wrapped) else err handshake_failed

-- What the crates document: a tag has 16 octets; a key of whole 8-octet blocks, two or more, is
-- wrapped into one block more, and unwrapped again.
pub record Documented (c : Primitives) : Type 0 where
  pub cmac-length : (key msg : List ℕ) → length (c.cmac key msg) ≡ 16
  pub wrap-unwrap :
      (kek plaintext : List ℕ)
      → (length kek ≡ 16) ⊎ (length kek ≡ 32)
      → 16 ≤ length plaintext
      → length plaintext % 8 ≡ 0
      → (wrapped : List ℕ) × (c.wrap kek plaintext ≡ some wrapped)
        × (length wrapped ≡ length plaintext + 8)
        × (c.unwrap kek wrapped ≡ some plaintext)
