-- ===== src/Wired/Mka/Pdu/Basic.antt =====
-- The Basic Parameter Set is read back from what is written for it.
use shuli.Base.{
  ℕ, ◌+◌, ◌*◌, ◌/◌, ◌%◌, ◌<◌, ◌≡◌, refl, sym, ap, ◌∙◌, List, [], ◌∷◌, ◌++◌, arith, length,
  length-append, append_assoc, Bool, false, ltb,
}
use shuli.Base.Outcome.{ok}
use shuli.Base.Bytes.{slice, be32, as_u8, IsU32, has_bit, u32_at}
use shuli.Base.Fields.{slice-between, u32_at-append}
use shuli.Core.Types.{ErrorKind}
use shuli.Wired.Mka.Types.{MkaBasic}
use shuli.Wired.Mka.Pdu.Read.{twelve_bits, read_basic}
use shuli.Wired.Mka.Pdu.Write.{bit, high_bits, basic_flags}
use shuli.Wired.Mka.Pdu.Loop.{IsWireBasic}

-- The flags, and the length that shares their octet.
pub flags-fields :
    (key_server macsec_desired : Bool) (capability basic_len flags : ℕ)
    → capability < 4
    → basic_len < 4096
    → flags
      ≡ bit key_server * 128 + bit macsec_desired * 64 + capability % 4 * 16 + high_bits basic_len
    → (has_bit flags 7 ≡ key_server)
      × (has_bit flags 6 ≡ macsec_desired)
      × (flags / 16 % 4 ≡ capability)
      × (twelve_bits flags (as_u8 basic_len) ≡ basic_len)
unfolding bit high_bits twelve_bits
flags-fields key_server macsec_desired capability basic_len flags h k e = ground arith

-- The first four octets.
abbrev pub basic_header : MkaBasic → List ℕ
basic_header basic =
    basic.version
    ∷ basic.priority
    ∷ basic_flags basic (28 + length basic.ckn)
    ∷ as_u8 (28 + length basic.ckn)
    ∷ []

-- The Basic Parameter Set without its padding.
unfoldable pub basic_octets : MkaBasic → List ℕ
basic_octets basic =
    basic_header basic
    ++ (basic.sci ++ (basic.mi ++ (be32 basic.mn ++ (basic.algo_agility ++ basic.ckn))))

pub length-basic_octets :
    (basic : MkaBasic) → IsWireBasic basic → length (basic_octets basic) ≡ 32 + length basic.ckn
unfolding basic_octets
length-basic_octets basic w = omega (
  arith,
  w.sci,
  w.mi,
  w.agility,
  length-append basic.sci (basic.mi ++ (be32 basic.mn ++ (basic.algo_agility ++ basic.ckn))),
  length-append basic.mi (be32 basic.mn ++ (basic.algo_agility ++ basic.ckn)),
  length-append basic.algo_agility basic.ckn,
)

-- The fields behind the first four octets.
basic-fields :
    (header sci mi : List ℕ) (mn : ℕ) (agility ckn rest body : List ℕ)
    → length header ≡ 4
    → length sci ≡ 8
    → length mi ≡ 12
    → IsU32 mn
    → length agility ≡ 4
    → body ≡ header ++ (sci ++ (mi ++ (be32 mn ++ (agility ++ (ckn ++ rest)))))
    → (slice {E = ErrorKind} body 4 12 ≡ ok sci)
      × (slice {E = ErrorKind} body 12 24 ≡ ok mi)
      × (u32_at {E = ErrorKind} body 24 ≡ ok mn)
      × (slice {E = ErrorKind} body 28 32 ≡ ok agility)
      × (slice {E = ErrorKind} body 32 (4 + (28 + length ckn)) ≡ ok ckn)
basic-fields header sci mi mn agility ckn rest body h s m u g e =
    let front2 = header ++ sci in
    let front3 = front2 ++ mi in
    let front4 = front3 ++ be32 mn in
    let front5 = front4 ++ agility in
    let e2 = e ∙ sym (append_assoc header sci _) in
    let e3 = e2 ∙ sym (append_assoc front2 mi _) in
    let e4 = e3 ∙ sym (append_assoc front3 (be32 mn) _) in
    let e5 = e4 ∙ sym (append_assoc front4 agility _) in
    let long2 = length-append header sci in
    let long3 = length-append front2 mi in
    let long4 = length-append front3 (be32 mn) in
    let long5 = length-append front4 agility in
    (
      ap (λ xs. slice xs 4 12) e ∙ slice-between header sci _ 4 12 (sym h) (omega arith),
      ap (λ xs. slice xs 12 24) e2 ∙ slice-between front2 mi _ 12 24 (omega arith) (omega arith),
      ap (λ xs. u32_at xs 24) e3 ∙ u32_at-append front3 mn _ 24 u (omega arith),
      ap (λ xs. slice xs 28 32) e4
          ∙ slice-between front4 agility _ 28 32 (omega arith) (omega arith),
      ap (λ xs. slice xs 32 (4 + (28 + length ckn))) e5
          ∙ slice-between front5 ckn _ 32 (4 + (28 + length ckn)) (omega arith) (omega arith),
    )

pub basic_octets-append :
    (basic : MkaBasic) (rest : List ℕ)
    → basic_octets basic ++ rest
      ≡ basic_header basic
        ++ (basic.sci
            ++ (basic.mi ++ (be32 basic.mn ++ (basic.algo_agility ++ (basic.ckn ++ rest)))))
unfolding basic_octets
basic_octets-append basic rest = simp append_assoc

pub read_basic-basic_octets :
    (basic : MkaBasic) (rest : List ℕ)
    → IsWireBasic basic
    → read_basic
        (basic_octets basic ++ rest)
        basic.version
        basic.priority
        (basic_flags basic (28 + length basic.ckn))
        (28 + length basic.ckn)
      ≡ ok basic
unfolding read_basic basic_flags
read_basic-basic_octets basic rest w =
    let (key_server, macsec_desired, capability, len) =
      flags-fields basic.key_server basic.macsec_desired basic.macsec_capability
        (28 + length basic.ckn) (basic_flags basic (28 + length basic.ckn)) w.capability
        (omega (arith, w.ckn)) refl in
    let long = length-append (basic_octets basic) rest in
    let own = length-basic_octets basic w in
    let (sci, mi, mn, agility, ckn) =
      basic-fields (basic_header basic) basic.sci basic.mi basic.mn basic.algo_agility basic.ckn
        rest (basic_octets basic ++ rest) refl w.sci w.mi w.mn w.agility
        (basic_octets-append basic rest) in
    let fits : ltb (length (basic_octets basic ++ rest)) (4 + (28 + length basic.ckn)) ≡ false =
      ground arith in
    let covers : ltb (28 + length basic.ckn) 28 ≡ false = ground arith in
    rw (fits, covers, sci, mi, mn, agility, ckn, key_server, macsec_desired, capability) refl
