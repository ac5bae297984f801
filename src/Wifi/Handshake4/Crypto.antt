-- ===== src/Wifi/Handshake4/Crypto.antt =====
-- The key derivation of wifi/crypto/kdf.rs and `derive_ft_ptk` of wifi/crypto/ft.rs, and the MIC and
-- key unwrap of wifi/crypto/handshake4.rs.
use shuli.Base.{
  ℕ, zero, suc, ◌+◌, ◌*◌, ◌/◌, ◌%◌, ◌^◌, not, Option, none, some, List, [], ◌∷◌, ◌++◌, length, take,
  ltb, ◌==◌, ◌||◌, if◌then◌else◌,
}
use shuli.Base.Outcome.{Outcome, ok, err, panic, out_of_fuel, refuse_if, ◌>>=◌, ◌>>◌}
use shuli.Core.Types.{ErrorKind, handshake_failed}
use shuli.Wifi.Pmksa.{MicAlg, aes_cmac, hmac_sha256, hmac_sha1}

-- What the crates `hmac`, `cmac` and `aes_kw` compute; `none` where the unwrap fails.
pub record Primitives : Type 0 where
  pub hmac_sha256 : List ℕ → List ℕ → List ℕ
  pub hmac_sha1 : List ℕ → List ℕ → List ℕ
  pub cmac : List ℕ → List ℕ → List ℕ
  pub unwrap : List ℕ → List ℕ → Option (List ℕ)

-- `to_le_bytes` of a u16.
abbrev le16 : ℕ → List ℕ
le16 n = n % 2 ^ 8 ∷ n / 2 ^ 8 % 2 ^ 8 ∷ []

-- "Pairwise key expansion" and "FT-PTK".
abbrev pub pairwise_label : List ℕ
pairwise_label =
    80 ∷ 97 ∷ 105 ∷ 114 ∷ 119 ∷ 105 ∷ 115 ∷ 101 ∷ 32 ∷ 107 ∷ 101 ∷ 121 ∷ 32 ∷ 101 ∷ 120 ∷ 112 ∷ 97
    ∷ 110 ∷ 115 ∷ 105 ∷ 111 ∷ 110 ∷ []

abbrev pub ft_ptk_label : List ℕ
ft_ptk_label = 70 ∷ 84 ∷ 45 ∷ 80 ∷ 84 ∷ 75 ∷ []

-- `counter += 1` of an integer below `bound`.
abbrev pub increment : ℕ → ℕ → Outcome ErrorKind ℕ
increment bound counter = if ltb (counter + 1) bound then ok (counter + 1) else panic

-- The loop of both: `tag` is the HMAC of a round's counter.
unfoldable pub expand : ℕ → (ℕ → List ℕ) → ℕ → ℕ → List ℕ → ℕ → Outcome ErrorKind (List ℕ)
expand zero tag bound size result counter = out_of_fuel
expand (suc fuel) tag bound size result counter =
    let round = (do
      next ← increment bound counter
      expand fuel tag bound size (result ++ tag counter) next) in
    if ltb (length result) size then round else ok (take size result)

module _ (c : Primitives) where
  unfoldable pub kdf : List ℕ → List ℕ → List ℕ → ℕ → Outcome ErrorKind (List ℕ)
  kdf key label context size =
      expand (size + 1)
        (λ counter.
          c.hmac_sha256 key (le16 counter ++ (label ++ (context ++ le16 (size * 8 % 2 ^ 16)))))
        (2 ^ 16) size [] 1

  unfoldable pub prf_sha1 : List ℕ → List ℕ → List ℕ → ℕ → Outcome ErrorKind (List ℕ)
  prf_sha1 key label context size =
      expand (size + 1) (λ counter. c.hmac_sha1 key (label ++ (0 ∷ (context ++ (counter ∷ [])))))
        (2 ^ 8) size [] 0

  unfoldable pub derive_ft_ptk :
      List ℕ → List ℕ → List ℕ → List ℕ → List ℕ → Outcome ErrorKind (List ℕ)
  derive_ft_ptk pmk_r1 snonce anonce bssid sta_addr =
      kdf pmk_r1 ft_ptk_label (snonce ++ (anonce ++ (bssid ++ sta_addr))) 48

  -- AES-128-CMAC refuses a key of another length than 16.
  unfoldable pub compute_mic : MicAlg → List ℕ → List ℕ → Outcome ErrorKind (List ℕ)
  compute_mic aes_cmac kck octets =
      if length kck == 16 then ok (c.cmac kck octets) else err handshake_failed
  compute_mic hmac_sha256 kck octets = ok (take 16 (c.hmac_sha256 kck octets))
  compute_mic hmac_sha1 kck octets = ok (take 16 (c.hmac_sha1 kck octets))

  unfoldable pub aes_key_unwrap : List ℕ → List ℕ → Outcome ErrorKind (List ℕ)
  aes_key_unwrap kek wrapped = do
    refuse_if (ltb (length wrapped) 16 || not (length wrapped % 8 == 0)) handshake_failed
    elim (c.unwrap kek wrapped) [ none ↦ err handshake_failed | some octets ↦ ok octets ]
