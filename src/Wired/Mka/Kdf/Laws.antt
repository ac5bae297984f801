-- ===== src/Wired/Mka/Kdf/Laws.antt =====
-- The keys of both ends agree, the KDF ends under any crate, and a wrapped key is unwrapped.
use shuli.Base.{
  ℕ, zero, suc, ◌+◌, ◌%◌, ◌≤◌, ◌<◌, ◌≡◌, ◌⊎◌, inl, inr, List, arith, length, Bool-cases, ltb,
  bytes_lt, bytes_lt-asymmetric, bytes_lt-connected,
}
use shuli.Base.Outcome.{Outcome, ok, ◌>>=◌, Returns, Returns-if}
use shuli.Base.Bytes.{returns_rules}
use shuli.Core.Types.{ErrorKind}
use shuli.Wired.Mka.Kdf.{
  Primitives, Documented, next_counter, in_order, cmac_aes, kdf_loop, aes_kdf, derive_eap_cak,
  derive_eap_ckn, wrap_key, unwrap_key,
}

in_order_comm : (mac1 mac2 : List ℕ) → in_order mac1 mac2 ≡ in_order mac2 mac1
unfolding in_order
in_order_comm mac1 mac2 = elim (Bool-cases (bytes_lt mac2 mac1)) [
  | inl below ↦ rw (below, bytes_lt-asymmetric mac2 mac1 below)
  | inr above ↦ elim (Bool-cases (bytes_lt mac1 mac2)) [
    | inl below ↦ rw (above, below)
    | inr equal ↦ rw (bytes_lt-connected mac1 mac2 equal above)
  ]
]

module _ (c : Primitives) where
  -- The two ends of a link derive the same CAK and the same CKN from a session, whichever of the
  -- two addresses each takes for the first.
  pub derive_eap-meet :
      (msk session_id mac1 mac2 : List ℕ)
      → (derive_eap_cak c msk mac1 mac2 ≡ derive_eap_cak c msk mac2 mac1)
        × (derive_eap_ckn c msk session_id mac1 mac2 ≡ derive_eap_ckn c msk session_id mac2 mac1)
  unfolding derive_eap_cak derive_eap_ckn
  derive_eap-meet msk session_id mac1 mac2 =
      (rw (in_order_comm mac1 mac2), rw (in_order_comm mac1 mac2))

  Returns-cmac_aes : (key msg : List ℕ) → Returns (cmac_aes c key msg)
  unfolding cmac_aes
  Returns-cmac_aes key msg = search (Returns-if)

  Returns-next_counter :
      (counter : ℕ) (f : ℕ → Outcome ErrorKind (List ℕ))
      → (counter + 1 < 256 → Returns (f (counter + 1)))
      → Returns (next_counter counter >>= f)
  Returns-next_counter counter f h = elim (Bool-cases (ltb (counter + 1) 256)) [
    | inl small ↦ rw small (h (ground arith))
    | inr last ↦ rw last tt
  ]

  Returns-kdf_loop :
      (fuel : ℕ) (key label context : List ℕ) (length_bits : ℕ) (out : List ℕ) (offset counter : ℕ)
      → 256 ≤ fuel + counter
      → counter < 256
      → Returns (kdf_loop c fuel key label context length_bits out offset counter)
  unfolding kdf_loop
  Returns-kdf_loop zero key label context length_bits out offset counter h k = absurd (omega arith)
  Returns-kdf_loop (suc fuel) key label context length_bits out offset counter h k =
      search
        (
          Returns-if,
          Returns-next_counter,
          returns_rules,
          Returns-cmac_aes,
          Returns-kdf_loop fuel key label context length_bits,
          arith,
        )
        depth 40

  -- The KDF returns, with keys or an error, whatever the crate for AES-CMAC computes.
  pub Returns-aes_kdf : (key label context out : List ℕ) → Returns (aes_kdf c key label context out)
  unfolding aes_kdf
  Returns-aes_kdf key label context out = search (returns_rules, Returns-kdf_loop, arith) depth 20

module _ (c : Primitives) (d : Documented c) where
  -- Where the crate keeps what it documents, a key of whole 8-octet blocks, two or more, that is
  -- wrapped under a key of 16 or 32 octets is unwrapped under the same key.
  pub unwrap_key-wrap_key :
      (kek plaintext : List ℕ)
      → (length kek ≡ 16) ⊎ (length kek ≡ 32)
      → 16 ≤ length plaintext
      → length plaintext % 8 ≡ 0
      → (wrap_key c kek plaintext >>= unwrap_key c kek) ≡ ok plaintext
  unfolding wrap_key unwrap_key
  unwrap_key-wrap_key kek plaintext h two blocks =
      let (wrapped, wraps, longer, unwraps) = d.wrap-unwrap kek plaintext h two blocks in
      ground (arith, wraps, unwraps)
