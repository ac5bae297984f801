-- ===== src/Ike/Selector/RoundTrip.antt =====
-- `decode_ts` reads back the selectors that a TS payload was built from.
use shuli.Base.{
  ◌==◌, if◌then◌else◌, ℕ, ◌+◌, ◌/◌, ◌%◌, ◌^◌, ◌≤◌, ◌≡◌, refl, List, [], ◌∷◌, ◌++◌, arith, length,
  All, length-append, drop-length_append, append_assoc,
}
use shuli.Base.Outcome.{ok}
use shuli.Base.Bytes.{IsU16, from_be16-be16, be16, slice-append}
use shuli.Ike.Types.{IpsecErrorKind, IpAddr, v4, v6, TsSelector}
use shuli.Ike.Selector.{
  selector_addresses, encode_ts_selector, encode_selectors, encode_ts, decode_addresses,
  decode_selector, decode_selectors, decode_ts,
}

-- The type goes with the addresses, and these have their four or sixteen octets.
abbrev pub AddressesFit : ℕ → IpAddr → IpAddr → Type 0
AddressesFit ts_type (v4 start) (v4 end) = (ts_type ≡ 7) × (length start ≡ 4) × (length end ≡ 4)
AddressesFit ts_type (v6 start) (v6 end) = (ts_type ≡ 8) × (length start ≡ 16) × (length end ≡ 16)
AddressesFit ts_type _ _ = ⊥

pub record IsWireSelector (s : TsSelector) : Type 0 where
  pub start_port : IsU16 s.start_port
  pub end_port : IsU16 s.end_port
  pub addresses : AddressesFit s.ts_type s.start s.end

abbrev address_octets : IpAddr → List ℕ
address_octets (v4 octets) = octets
address_octets (v6 octets) = octets

abbrev selector_len : ℕ → ℕ
selector_len ts_type = if ts_type == 7 then 16 else 40

abbrev selector_octets : TsSelector → List ℕ
selector_octets s =
    (s.ts_type ∷ s.protocol ∷ [])
    ++ (be16 (selector_len s.ts_type)
        ++ (be16 s.start_port
            ++ (be16 s.end_port ++ (address_octets s.start ++ address_octets s.end))))

addresses-octets :
    (ts_type : ℕ) (start end : IpAddr)
    → AddressesFit ts_type start end
    → selector_addresses ts_type start end
      ≡ ok (selector_len ts_type, address_octets start ++ address_octets end)
unfolding selector_addresses
addresses-octets ts_type (v4 start) (v4 end) f = ground arith
addresses-octets ts_type (v6 start) (v6 end) f = ground arith
addresses-octets ts_type (v4 start) (v6 end) f = absurd f
addresses-octets ts_type (v6 start) (v4 end) f = absurd f

decode_addresses-octets :
    (a b c d e f g h ts_type : ℕ) (start end : IpAddr) (rest : List ℕ)
    → AddressesFit ts_type start end
    → decode_addresses ts_type
        (selector_len ts_type)
        (a ∷ b ∷ c ∷ d ∷ e ∷ f ∷ g ∷ h ∷ (address_octets start ++ (address_octets end ++ rest)))
      ≡ ok (start, end)
unfolding decode_addresses
decode_addresses-octets a b c d e f g h ts_type (v4 start) (v4 end) rest fit =
    let head : List ℕ = a ∷ b ∷ c ∷ d ∷ e ∷ f ∷ g ∷ h ∷ [] in
    ground (
      arith,
      slice-append {E = IpsecErrorKind} head start (end ++ rest),
      slice-append {E = IpsecErrorKind} (head ++ start) end rest,
      append_assoc head start (end ++ rest),
      length-append head start,
    )
decode_addresses-octets a b c d e f g h ts_type (v6 start) (v6 end) rest fit =
    let head : List ℕ = a ∷ b ∷ c ∷ d ∷ e ∷ f ∷ g ∷ h ∷ [] in
    ground (
      arith,
      slice-append {E = IpsecErrorKind} head start (end ++ rest),
      slice-append {E = IpsecErrorKind} (head ++ start) end rest,
      append_assoc head start (end ++ rest),
      length-append head start,
    )
decode_addresses-octets a b c d e f g h ts_type (v4 start) (v6 end) rest fit = absurd fit
decode_addresses-octets a b c d e f g h ts_type (v6 start) (v4 end) rest fit = absurd fit

encode_ts_selector-octets :
    (s : TsSelector) → IsWireSelector s → encode_ts_selector s ≡ ok (selector_octets s)
unfolding encode_ts_selector
encode_ts_selector-octets s w = rw (addresses-octets s.ts_type s.start s.end w.addresses)

length-addresses :
    (ts_type : ℕ) (start end : IpAddr)
    → AddressesFit ts_type start end
    → 8 + length (address_octets start ++ address_octets end) ≡ selector_len ts_type
length-addresses ts_type (v4 start) (v4 end) f = ground (arith, length-append start end)
length-addresses ts_type (v6 start) (v6 end) f = ground (arith, length-append start end)
length-addresses ts_type (v4 start) (v6 end) f = absurd f
length-addresses ts_type (v6 start) (v4 end) f = absurd f

decode_selector-octets :
    (s : TsSelector) (rest : List ℕ)
    → IsWireSelector s
    → decode_selector (selector_octets s ++ rest) ≡ ok (s, length (selector_octets s))
unfolding decode_selector
decode_selector-octets s rest w =
    let start = address_octets s.start in
    let end = address_octets s.end in
    let len = selector_len s.ts_type in
    rw (append_assoc start end rest) (
      ground (
        arith,
        from_be16-be16 s.start_port w.start_port,
        from_be16-be16 s.end_port w.end_port,
        length-addresses s.ts_type s.start s.end w.addresses,
        length-append (start ++ end) rest,
        append_assoc start end rest,
        decode_addresses-octets s.ts_type s.protocol (len / 2 ^ 8 % 2 ^ 8) (len % 2 ^ 8)
            (s.start_port / 2 ^ 8 % 2 ^ 8) (s.start_port % 2 ^ 8) (s.end_port / 2 ^ 8 % 2 ^ 8)
            (s.end_port % 2 ^ 8) s.ts_type s.start s.end rest w.addresses,
      ))

abbrev selectors_octets : List TsSelector → List ℕ
selectors_octets [] = []
selectors_octets (s ∷ ss) = selector_octets s ++ selectors_octets ss

encode_selectors-octets :
    (ss : List TsSelector) → All IsWireSelector ss → encode_selectors ss ≡ ok (selectors_octets ss)
unfolding encode_selectors
encode_selectors-octets [] w = refl
encode_selectors-octets (s ∷ ss) (w, ws) =
    rw (encode_ts_selector-octets s w, encode_selectors-octets ss ws)

decode_selectors-octets :
    (ss : List TsSelector)
    → All IsWireSelector ss
    → decode_selectors (length ss) (selectors_octets ss) ≡ ok ss
unfolding decode_selectors
decode_selectors-octets [] w = refl
decode_selectors-octets (s ∷ ss) (w, ws) = rw (
  decode_selector-octets s (selectors_octets ss) w,
  drop-length_append (selector_octets s) (selectors_octets ss),
  decode_selectors-octets ss ws,
)

-- Up to 255 selectors of consistent types are encoded, and decoded again to themselves.
pub decode_ts-encode_ts :
    (ss : List TsSelector)
    → length ss ≤ 255
    → All IsWireSelector ss
    → (body : List ℕ) × (encode_ts ss ≡ ok body) × (decode_ts body ≡ ok ss)
unfolding encode_ts decode_ts
decode_ts-encode_ts ss count w = (
  (length ss % 2 ^ 8) ∷ 0 ∷ 0 ∷ 0 ∷ selectors_octets ss,
  rw (encode_selectors-octets ss w),
  ground (arith, decode_selectors-octets ss w),
)
