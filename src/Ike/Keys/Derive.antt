-- ===== src/Ike/Keys/Derive.antt =====
-- What the derived keys are, and that the two ends of a tunnel hold the same ones.
use shuli.Base.{
  ℕ, ◌+◌, ◌-◌, ◌*◌, ◌≤◌, ◌≡◌, refl, Bool, Option, List, ◌++◌, arith, length, take, drop,
  length-take, length-drop,
}
use shuli.Base.Outcome.{ok}
use shuli.Base.Bytes.{slice, slice-eq-ok, slice_to-eq-ok, be64}
use shuli.Ike.Types.{IpsecErrorKind}
use shuli.Ike.Algorithm.{
  EncryptionAlgorithm, PrfAlgorithm, IntegrityAlgorithm, encryption_key_len, salt_len, prf_key_len,
  integrity_key_len,
}
use shuli.Ike.Crypto.{Primitives, prf}
use shuli.Ike.Crypto.Laws.{Documented}
use shuli.Ike.Crypto.PrfPlus.{prf_plus-blocks}
use shuli.Ike.Keys.{
  Role, initiator, responder, is_initiator, IkeKeys, outbound_encryption, inbound_encryption,
  outbound_integrity, inbound_integrity, ChildKeys, child_keys, split_keys, split_child_keys,
  optional_octets, derive, derive_child_keys,
}

-- The lengths that the algorithms ask for.
pub record KeysFit (p : PrfAlgorithm) (e : EncryptionAlgorithm) (a : IntegrityAlgorithm)
    (k : IkeKeys) : Type 0 where
  pub sk_d : length k.sk_d ≡ prf_key_len p
  pub sk_ai : length k.sk_ai ≡ integrity_key_len a
  pub sk_ar : length k.sk_ar ≡ integrity_key_len a
  pub sk_ei : length k.sk_ei ≡ encryption_key_len e + salt_len e
  pub sk_er : length k.sk_er ≡ encryption_key_len e + salt_len e
  pub sk_pi : length k.sk_pi ≡ prf_key_len p
  pub sk_pr : length k.sk_pr ≡ prf_key_len p

-- A slice in range, of the length asked for.
slice_cut :
    (xs : List ℕ) (a b : ℕ)
    → a ≤ b
    → b ≤ length xs
    → (ys : List ℕ) × (slice {E = IpsecErrorKind} xs a b ≡ ok ys) × (length ys ≡ b - a)
slice_cut xs a b h k = (
  take (b - a) (drop a xs),
  slice-eq-ok xs a b h k,
  omega (arith, length-take (b - a) (drop a xs), length-drop a xs),
)

-- Lengths in the source's order: PRF, integrity and encryption.
record Lengths (p a e : ℕ) (k : IkeKeys) : Type 0 where
  sk_d : length k.sk_d ≡ p
  sk_ai : length k.sk_ai ≡ a
  sk_ar : length k.sk_ar ≡ a
  sk_ei : length k.sk_ei ≡ e
  sk_er : length k.sk_er ≡ e
  sk_pi : length k.sk_pi ≡ p
  sk_pr : length k.sk_pr ≡ p

split_keys-Lengths :
    (p a e : ℕ) (m : List ℕ)
    → length m ≡ p * 3 + e * 2 + a * 2
    → (k : IkeKeys) × (split_keys p a e m ≡ ok k) × Lengths p a e k
unfolding split_keys
split_keys-Lengths p a e m h =
    let (k0, e0, l0) = slice_cut m 0 p (omega arith) (omega arith) in
    let (k1, e1, l1) = slice_cut m p (p + a) (omega arith) (omega arith) in
    let (k2, e2, l2) = slice_cut m (p + a) (p + a + a) (omega arith) (omega arith) in
    let (k3, e3, l3) = slice_cut m (p + a + a) (p + a + a + e) (omega arith) (omega arith) in
    let (k4, e4, l4) =
      slice_cut m (p + a + a + e) (p + a + a + e + e) (omega arith) (omega arith) in
    let (k5, e5, l5) =
      slice_cut m (p + a + a + e + e) (p + a + a + e + e + p) (omega arith) (omega arith) in
    let (k6, e6, l6) =
      slice_cut m (p + a + a + e + e + p) (p + a + a + e + e + p + p) (omega arith) (omega arith) in
    (
      record { sk_d = k0; sk_ai = k1; sk_ar = k2; sk_ei = k3; sk_er = k4; sk_pi = k5; sk_pr = k6 },
      rw (e0, e1, e2, e3, e4, e5, e6),
      omega arith,
    )

module _ (c : Primitives) (d : Documented c) where
  -- Where the crates keep what they document, the derivation of the IKE keys never reads past the
  -- key material, and gives every key the length that its algorithm asks for.
  pub derive-KeysFit :
      (p : PrfAlgorithm) (shared nonce_i nonce_r : List ℕ) (spi_i spi_r : ℕ)
      (e : EncryptionAlgorithm) (a : IntegrityAlgorithm)
      → (k : IkeKeys) × (derive c p shared nonce_i nonce_r spi_i spi_r e a ≡ ok k) × KeysFit p e a k
  unfolding derive
  derive-KeysFit p shared nonce_i nonce_r spi_i spi_r e a =
      let lp = prf_key_len p in
      let le = encryption_key_len e + salt_len e in
      let la = integrity_key_len a in
      let (m, em, _, lm) =
        prf_plus-blocks c d p (prf c p (nonce_i ++ nonce_r) shared)
          (nonce_i ++ (nonce_r ++ (be64 spi_i ++ be64 spi_r))) (lp * 3 + le * 2 + la * 2) in
      let (k, ek, lk) = split_keys-Lengths lp la le m lm in (k, rw (em, ek), omega arith)

-- The other role.
abbrev pub peer : Role → Role
peer initiator = responder
peer responder = initiator

-- Under the same keys, what one role sends with, the other role receives with.
keys_meet :
    (k : IkeKeys) (r : Role)
    → (outbound_encryption k r ≡ inbound_encryption k (peer r))
      × (outbound_integrity k r ≡ inbound_integrity k (peer r))
unfolding outbound_encryption inbound_encryption outbound_integrity inbound_integrity is_initiator
keys_meet k r = ground arith

split_child_keys-ok :
    (e a : ℕ) (m : List ℕ)
    → length m ≡ e * 2 + a * 2
    → (k : List ℕ × List ℕ × List ℕ × List ℕ) × (split_child_keys e a m ≡ ok k)
      × (length k.0 ≡ e)
      × (length k.1 ≡ e)
      × (length k.2 ≡ a)
      × (length k.3 ≡ a)
unfolding split_child_keys
split_child_keys-ok e a m h =
    let (k1, e1, l1) = slice_cut m e (e * 2) (omega arith) (omega arith) in
    let (k2, e2, l2) = slice_cut m (e * 2) (e * 2 + a) (omega arith) (omega arith) in
    let (k3, e3, l3) = slice_cut m (e * 2 + a) (e * 2 + a * 2) (omega arith) (omega arith) in
    (
      (take e m, k1, k2, k3),
      rw (slice_to-eq-ok m e (omega arith), e1, e2, e3),
      omega (arith, length-take e m),
      omega arith,
      omega arith,
      omega arith,
    )

-- The two ends of a Child SA: each sends as the other receives, under SPIs the other way round.
pub record ChildKeysMeet (near far : ChildKeys) : Type 0 where
  pub outbound : near.outbound_key ≡ far.inbound_key
  pub inbound : near.inbound_key ≡ far.outbound_key
  pub outbound_integrity : near.outbound_integrity_key ≡ far.inbound_integrity_key
  pub inbound_integrity : near.inbound_integrity_key ≡ far.outbound_integrity_key
  pub local : near.local_spi ≡ far.remote_spi
  pub remote : near.remote_spi ≡ far.local_spi

child_keys-ChildKeysMeet :
    (r : Role) (e : EncryptionAlgorithm) (a : IntegrityAlgorithm) (near_spi far_spi : ℕ)
    (esn : Bool) (k : List ℕ × List ℕ × List ℕ × List ℕ)
    → ChildKeysMeet
        (child_keys r e a near_spi far_spi esn k)
        (child_keys (peer r) e a far_spi near_spi esn k)
unfolding child_keys is_initiator
child_keys-ChildKeysMeet initiator e a near_spi far_spi esn k = record {
  outbound = refl;
  inbound = refl;
  outbound_integrity = refl;
  inbound_integrity = refl;
  local = refl;
  remote = refl;
}
child_keys-ChildKeysMeet responder e a near_spi far_spi esn k = record {
  outbound = refl;
  inbound = refl;
  outbound_integrity = refl;
  inbound_integrity = refl;
  local = refl;
  remote = refl;
}

child_keys-length :
    (r : Role) (e : EncryptionAlgorithm) (a : IntegrityAlgorithm) (near_spi far_spi : ℕ)
    (esn : Bool) (k : List ℕ × List ℕ × List ℕ × List ℕ) (n : ℕ)
    → length k.0 ≡ n
    → length k.1 ≡ n
    → length (child_keys r e a near_spi far_spi esn k).outbound_key ≡ n
unfolding child_keys is_initiator
child_keys-length initiator e a near_spi far_spi esn k n h g = h
child_keys-length responder e a near_spi far_spi esn k n h g = g

-- Where the crates keep what they document, the two roles derive from the same secrets Child SA
-- keys that meet: each sends with what the other receives with, under SPIs the other way round, and
-- an encryption key has the length of the cipher's key and salt.
pub derive_child_keys-meet :
    (c : Primitives)
    → Documented c
    → (p : PrfAlgorithm) (sk_d nonce_i nonce_r : List ℕ) (dh_shared : Option (List ℕ)) (role : Role)
      (e : EncryptionAlgorithm) (a : IntegrityAlgorithm) (near_spi far_spi : ℕ) (esn : Bool)
    → (near : ChildKeys) × (far : ChildKeys) × (derive_child_keys c p sk_d nonce_i nonce_r dh_shared
          role e a near_spi far_spi esn
        ≡ ok near)
      × (derive_child_keys c p sk_d nonce_i nonce_r dh_shared (peer role) e a far_spi near_spi esn
          ≡ ok far)
      × ChildKeysMeet near far
      × (length near.outbound_key ≡ encryption_key_len e + salt_len e)
unfolding derive_child_keys
derive_child_keys-meet c d p sk_d nonce_i nonce_r dh_shared role e a near_spi far_spi esn =
    let le = encryption_key_len e + salt_len e in
    let la = integrity_key_len a in
    let (m, em, _, lm) =
      prf_plus-blocks c d p sk_d (optional_octets dh_shared ++ (nonce_i ++ nonce_r))
        (le * 2 + la * 2) in
    let (k, ek, l0, l1, l2, l3) = split_child_keys-ok le la m lm in
    (
      child_keys role e a near_spi far_spi esn k,
      child_keys (peer role) e a far_spi near_spi esn k,
      rw (em, ek),
      rw (em, ek),
      child_keys-ChildKeysMeet role e a near_spi far_spi esn k,
      child_keys-length role e a near_spi far_spi esn k le l0 l1,
    )
