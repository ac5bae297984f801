-- ===== src/Core/EapTls/Limits.antt =====
-- What a peer can make an `EapTlsMethod` of core/eap_tls.rs do and hold.
use shuli.Base.{
  ◌∷◌, ℕ, ◌≤◌, ◌≡◌, refl, Bool, some, List, [], length, arith, length-append, Option, Bool-cases,
  inl, inr, ltb, not, ◌&&◌, ◌==◌, is_some, none, ◌^◌, ◌%◌,
}
use shuli.Base.Outcome.{
  Outcome, ok, err, panic, out_of_fuel, Returns, Returns-if, >>=-eq-ok, refuse_if, ◌>>=◌,
}
use shuli.Base.Bytes.{u32_at, returns_rules, has_bit}
use shuli.Core.Types.{ErrorKind, handshake_failed}
use shuli.Core.EapTls.{
  announced_len, checked_len, gather_after, EapTlsMethod, rx_limit, announce, gather, clear_rx,
  reassemble, receive, parse_tls_message, Received, acknowledged, connected, start_conn, started,
  parsed, is_empty, next_tx_fragment, tx_fragment,
}

-- The octets held fit the length announced, or 65535, and no length beyond 65535 is.
pub record IsLimited {C : Type 0} (m : EapTlsMethod C) : Type 0 where
  pub held : length m.rx_fragments ≤ rx_limit m.rx_expected_len
  pub announced : rx_limit m.rx_expected_len ≤ 65535

checked_len-le :
    (n : ℕ) (expected : Option ℕ) (len : ℕ) → checked_len n expected ≡ ok len → len ≤ 65535
unfolding checked_len
checked_len-le n expected len e = ground arith

announced_len-le :
    (body : List ℕ) (expected : Option ℕ) (len : ℕ)
    → announced_len body expected ≡ ok len
    → len ≤ 65535
unfolding announced_len
announced_len-le body expected len e =
    let (_, _, rest) = >>=-eq-ok (refuse_if (ltb (length body) 5) handshake_failed) _ e in
    let (n, _, checked) = >>=-eq-ok (u32_at body 1) _ rest in checked_len-le n expected len checked

Returns-announced_len :
    (body : List ℕ) (expected : Option ℕ) → Returns (announced_len body expected)
unfolding announced_len checked_len
Returns-announced_len body expected = search (returns_rules, arith) depth 40

Returns-parse : (body : List ℕ) → Returns (parse_tls_message body)
unfolding parse_tls_message
Returns-parse [] = tt
Returns-parse (x ∷ xs) = search (returns_rules, Returns-if, arith) depth 40

module _ {C : Type 0} where
  announce-limit :
      (m m' : EapTlsMethod C) (flags : ℕ) (body : List ℕ)
      → announce m flags body ≡ ok m'
      → rx_limit m.rx_expected_len ≤ 65535
      → rx_limit m'.rx_expected_len ≤ 65535
  unfolding announce
  announce-limit m m' flags body e h = elim (Bool-cases (has_bit flags 7)) [
    | inl long ↦
        let (len, read, e') = >>=-eq-ok (announced_len body m.rx_expected_len) _ (rw long at e) in
        let same : record m { rx_expected_len = some (len % 2 ^ 32) } ≡ m' = cc e' in
        rw (← same) (omega (arith, announced_len-le body m.rx_expected_len len read))
    | inr short ↦ let same : m ≡ m' = cc (rw short at e) in rw (← same) h
  ]

  gather-IsLimited :
      (m : EapTlsMethod C) (more : Bool) (octets : List ℕ)
      → rx_limit m.rx_expected_len ≤ 65535
      → IsLimited (gather m more octets).1
  unfolding gather clear_rx
  gather-IsLimited m more octets h = ground (arith, length-append m.rx_fragments octets)

  gather_after-IsLimited :
      (m : EapTlsMethod C) (more : Bool) (octets : List ℕ) (r : Outcome ErrorKind (EapTlsMethod C))
      → IsLimited m
      → ((m' : EapTlsMethod C) → r ≡ ok m' → rx_limit m'.rx_expected_len ≤ 65535)
      → IsLimited (gather_after m more octets r).1
  unfolding gather_after
  gather_after-IsLimited m more octets (ok m') w h = gather-IsLimited m' more octets (h m' refl)
  gather_after-IsLimited m more octets (err e) w h = w
  gather_after-IsLimited m more octets panic w h = w
  gather_after-IsLimited m more octets out_of_fuel w h = w

  Returns-announce :
      (m : EapTlsMethod C) (flags : ℕ) (body : List ℕ) → Returns (announce m flags body)
  unfolding announce
  Returns-announce m flags body =
      search (returns_rules, Returns-if, Returns-announced_len, arith) depth 40

  Returns-gather :
      (m : EapTlsMethod C) (more : Bool) (octets : List ℕ) → Returns (gather m more octets).0
  unfolding gather
  Returns-gather m more octets = ground arith

  Returns-gather_after :
      (m : EapTlsMethod C) (more : Bool) (octets : List ℕ) (r : Outcome ErrorKind (EapTlsMethod C))
      → Returns r
      → Returns (gather_after m more octets r).0
  unfolding gather_after
  Returns-gather_after m more octets (ok m') h = Returns-gather m' more octets
  Returns-gather_after m more octets (err e) h = h
  Returns-gather_after m more octets panic h = h
  Returns-gather_after m more octets out_of_fuel h = h

  -- A property of what a request comes to, that of the reply and of the method behind it.
  abbrev Keeps : Outcome ErrorKind Received × EapTlsMethod C → Type 0
  Keeps (result, m) = Returns result × IsLimited m

  acknowledged-Keeps : (m : EapTlsMethod C) → IsLimited m → Keeps (acknowledged m)
  unfolding acknowledged next_tx_fragment tx_fragment
  acknowledged-Keeps m w = ground arith

  reassemble-Keeps :
      (m : EapTlsMethod C) (body : List ℕ) (flags : ℕ) (octets : List ℕ)
      → IsLimited m
      → Keeps (reassemble m body flags octets)
  unfolding reassemble
  reassemble-Keeps m body flags octets w = elim (Bool-cases (flags == 0 && is_empty octets)) [
    | inl ack ↦ rw ack (acknowledged-Keeps m w)
    | inr fragment ↦ rw fragment (
      Returns-gather_after m (has_bit flags 6) octets (announce m flags body)
          (Returns-announce m flags body),
      gather_after-IsLimited m (has_bit flags 6) octets (announce m flags body) w
          λ m' e. announce-limit m m' flags body e w.announced,
    )
  ]

  connected-Keeps :
      (m : EapTlsMethod C) (body : List ℕ) (flags : ℕ) (octets : List ℕ) (conn : Option C)
      → IsLimited m
      → Keeps (connected m body flags octets conn)
  unfolding connected
  connected-Keeps m body flags octets none w = (tt, w)
  connected-Keeps m body flags octets (some c) w = reassemble-Keeps m body flags octets w

  module _ (connect : Outcome ErrorKind C) (returns : Returns connect) where
    started-Keeps :
        (m : EapTlsMethod C) (body : List ℕ) (flags : ℕ) (octets : List ℕ)
        → IsLimited m
        → Keeps (started m body flags octets (start_conn connect flags m))
    unfolding started start_conn
    started-Keeps m body flags octets w =
        elim (Bool-cases (has_bit flags 5 && not (is_some m.conn))) [
          | inr go ↦ rw go (connected-Keeps m body flags octets m.conn w)
          | inl first ↦ rw first (created connect returns)
        ]
      where
        created :
            (r : Outcome ErrorKind C)
            → Returns r
            → Keeps (started m body flags octets (do conn ← r; ok (record m { conn = some conn })))
        created (ok conn) h =
            connected-Keeps (record m { conn = some conn }) body flags octets (some conn)
              (record { held = w.held; announced = w.announced })
        created (err e) h = (h, w)
        created panic h = (h, w)
        created out_of_fuel h = (h, w)

    parsed-Keeps :
        (m : EapTlsMethod C) (body : List ℕ) (r : Outcome ErrorKind (ℕ × List ℕ))
        → Returns r
        → IsLimited m
        → Keeps (parsed connect m body r)
    unfolding parsed
    parsed-Keeps m body (ok (flags, octets)) h w = started-Keeps m body flags octets w
    parsed-Keeps m body (err e) h w = (h, w)
    parsed-Keeps m body panic h w = (h, w)
    parsed-Keeps m body out_of_fuel h w = (h, w)

    -- Where the creation of a connection returns, a method returns on any request, before the Start
    -- and behind it, as far as TLS; and a method that holds no more octets than the length announced,
    -- and never more than 65535, keeps to that.
    pub receive-IsLimited :
        (m : EapTlsMethod C) (body : List ℕ)
        → IsLimited m
        → Returns (receive connect m body).0 × IsLimited (receive connect m body).1
    unfolding receive
    receive-IsLimited m body w = parsed-Keeps m body (parse_tls_message body) (Returns-parse body) w
