-- ===== src/Core/EapTls/Exchange.antt =====
-- Two methods of core/eap_tls.rs, one of which sends its fragments and the other acknowledges them.
use shuli.Base.{
  ℕ, zero, suc, ◌+◌, ◌-◌, ◌≤◌, ◌<◌, ◌≡◌, min, true, false, none, some, List, [], ◌∷◌, ◌++◌, length,
  take, drop, ltb, leb, ◌==◌, Bool, if◌then◌else◌, arith, length-take, length-drop, Bool-cases, inl,
  inr, ap, ◌∙◌, ltb→lt, ltb-false→le, take-take-drop, take_all,
}
use shuli.Base.Outcome.{Outcome, ok, out_of_fuel, ◌>>=◌}
use shuli.Base.Bytes.{as_u32, be32}
use shuli.Core.Types.{ErrorKind}
use shuli.Core.EapTls.{
  EapTlsMethod, fragment_flags, queue_tls_output, tx_fragment, next_tx_fragment, gather, receive,
  is_empty, Received, reply, whole, build_tls_message,
}
use shuli.Core.EapTls.Reassembly.{
  is_empty-false, receive-ack, receive-first, receive-later, gather-joined, gather-whole,
}

abbrev pub answer_of : Outcome ErrorKind Received → List ℕ
answer_of (ok (reply body)) = body
answer_of r = []

abbrev pub is_whole : Received → Bool
is_whole whole = true
is_whole (reply body) = false

-- The rounds of an exchange: the sender gets what the receiver answered last, at first an ACK, and
-- the receiver what the sender answers, until it has a message.
unfoldable pub exchange :
    {C D : Type 0}
    → Outcome ErrorKind C
    → Outcome ErrorKind D
    → ℕ
    → List ℕ
    → EapTlsMethod C
    → EapTlsMethod D
    → Outcome ErrorKind (EapTlsMethod D)
exchange connect connect' zero ask sender receiver = out_of_fuel
exchange connect connect' (suc rounds) ask sender receiver =
    let (fragment, sender') = receive connect sender ask in
    let (result, receiver') = receive connect' receiver (answer_of fragment) in
    let later = exchange connect connect' rounds (answer_of result) sender' receiver' in
    fragment >>= λ body. result >>= λ r. if is_whole r then ok receiver' else later

-- A receiver that has passed a message on to TLS.
abbrev pub passed_on : {D : Type 0} → EapTlsMethod D → List ℕ → EapTlsMethod D
passed_on receiver message = record receiver {
  rx_buf = receiver.rx_buf ++ message;
  rx_fragments = [];
  rx_expected_len = none;
}

module _ {C D : Type 0} (sender : EapTlsMethod C) (receiver : EapTlsMethod D) (message : List ℕ)
    (small : length message ≤ 65535) where
  -- The sender at an offset of the message, and the receiver that has so many octets of it.
  abbrev sends : ℕ → EapTlsMethod C
  sends offset = record sender { tx_queue = message; tx_offset = offset; tx_total = length message }

  abbrev holds : ℕ → EapTlsMethod D
  holds offset = record receiver {
    rx_fragments = take offset message;
    rx_expected_len = some (length message);
  }

  gather-more :
      (offset size : ℕ)
      → offset + size ≤ length message
      → gather (holds offset) true (take size (drop offset message))
        ≡ (ok (reply (build_tls_message [])), holds (offset + size))
  gather-more offset size h =
      gather-joined receiver (take offset message) (take size (drop offset message))
        (length message)
        (omega (
          arith,
          length-take offset message,
          length-take size (drop offset message),
          length-drop offset message,
        ))
      ∙ ap
          (λ (l : List ℕ). (
            ok (reply (build_tls_message [])),
            record receiver { rx_fragments = l; rx_expected_len = some (length message) },
          ))
          (take-take-drop offset size message)

  gather-last :
      (offset size : ℕ)
      → offset + size ≡ length message
      → gather (holds offset) false (take size (drop offset message))
        ≡ (ok whole, passed_on receiver message)
  gather-last offset size h =
      let joined : take offset message ++ take size (drop offset message) ≡ message =
        take-take-drop offset size message ∙ take_all (offset + size) message (omega arith) in
      rw
        (gather-whole receiver (take offset message) (take size (drop offset message))
          (length message)
          (omega (
            arith,
            length-take offset message,
            length-take size (drop offset message),
            length-drop offset message,
          ))
          small)
        (ap
          (λ (l : List ℕ). (
            ok whole,
            record receiver {
              rx_buf = receiver.rx_buf ++ l;
              rx_fragments = [];
              rx_expected_len = none;
            },
          ))
          joined)

  some_octets :
      (offset size : ℕ)
      → offset < length message
      → 0 < size
      → 0 < length (take size (drop offset message))
  some_octets offset size h k =
      omega (arith, length-take size (drop offset message), length-drop offset message)

  nonempty : 0 < length message → is_empty message ≡ false
  nonempty h = is_empty-false message h

  -- What the sender sends at an offset, and where it is afterwards.
  next-more :
      (offset : ℕ)
      → offset + sender.max_tls_fragment < length message
      → next_tx_fragment (sends offset) ≡ (
        fragment_flags (offset == 0) true
            ∷ ((if offset == 0 then be32 (as_u32 (length message)) else [])
                ++ take sender.max_tls_fragment (drop offset message)),
        sends (offset + sender.max_tls_fragment),
      )
  unfolding next_tx_fragment tx_fragment
  next-more offset h =
      let size : min (length message - offset) sender.max_tls_fragment ≡ sender.max_tls_fragment =
        omega arith in
      let more : ltb sender.max_tls_fragment (length message - offset) ≡ true = ground arith in
      let inside : leb (length message) offset ≡ false = ground arith in
      rw (nonempty (omega arith), inside, size, more)

  next-last :
      (offset : ℕ)
      → offset < length message
      → length message ≤ offset + sender.max_tls_fragment
      → (sender' : EapTlsMethod C) × (next_tx_fragment (sends offset) ≡ (
        fragment_flags (offset == 0) false
            ∷ ((if offset == 0 then be32 (as_u32 (length message)) else [])
                ++ take (length message - offset) (drop offset message)),
        sender',
      ))
  unfolding next_tx_fragment tx_fragment
  next-last offset h k =
      let size : min (length message - offset) sender.max_tls_fragment ≡ length message - offset =
        omega arith in
      let more : ltb (length message - offset) (length message - offset) ≡ false = ground arith in
      let inside : leb (length message) offset ≡ false = ground arith in
      (
        record sender { tx_queue = []; tx_offset = 0; tx_total = 0 },
        rw (nonempty (omega arith), inside, size, more),
      )

  module _ (room : 0 < sender.max_tls_fragment) (connect : Outcome ErrorKind C) (conn : C)
      (ready : sender.conn ≡ some conn) (connect' : Outcome ErrorKind D) (conn' : D)
      (ready' : receiver.conn ≡ some conn') where
    exchange-later :
        (fuel offset : ℕ)
        → 0 < offset
        → offset < length message
        → length message ≤ offset + fuel
        → exchange connect connect' fuel (build_tls_message []) (sends offset) (holds offset)
          ≡ ok (passed_on receiver message)
    unfolding exchange
    exchange-later zero offset b h k = absurd (omega arith)
    exchange-later (suc fuel) offset b h k =
        let later : (offset == 0) ≡ false = ground arith in
        elim (Bool-cases (ltb (offset + sender.max_tls_fragment) (length message))) [
          | inl more ↦
              let next = ltb→lt _ _ more in
              let octets = take sender.max_tls_fragment (drop offset message) in
              rw
                (
                  exchange,
                  receive-ack (sends offset) connect conn ready,
                  next-more offset next,
                  later,
                  receive-later (holds offset) octets connect' conn' ready' true
                      (some_octets offset sender.max_tls_fragment h room),
                  gather-more offset sender.max_tls_fragment (omega arith),
                )
                (exchange-later fuel (offset + sender.max_tls_fragment) (omega arith) next
                  (omega arith))
          | inr last ↦
              let (sender', e) = next-last offset h (ltb-false→le _ _ last) in
              let octets = take (length message - offset) (drop offset message) in
              rw (
                exchange,
                receive-ack (sends offset) connect conn ready,
                e,
                later,
                receive-later (holds offset) octets connect' conn' ready' false
                    (some_octets offset (length message - offset) h (omega arith)),
                gather-last offset (length message - offset) (omega arith),
              )
        ]

    exchange-first :
        (fuel : ℕ)
        → 0 < length message
        → length message ≤ suc fuel
        → receiver.rx_fragments ≡ []
        → receiver.rx_expected_len ≡ none
        → exchange connect connect' (suc fuel) (build_tls_message []) (sends 0) receiver
          ≡ ok (passed_on receiver message)
    unfolding exchange
    exchange-first fuel h k idle unannounced =
        let announced : record receiver { rx_expected_len = some (length message) } ≡ holds 0 =
          ap
            (λ (l : List ℕ). record receiver {
              rx_fragments = l;
              rx_expected_len = some (length message);
            })
            idle in
        elim (Bool-cases (ltb (0 + sender.max_tls_fragment) (length message))) [
          | inl more ↦
              let next = ltb→lt _ _ more in
              rw
                (
                  exchange,
                  receive-ack (sends 0) connect conn ready,
                  next-more 0 next,
                  receive-first receiver (take sender.max_tls_fragment message) connect' conn'
                      ready' true (length message) small unannounced,
                  announced,
                  gather-more 0 sender.max_tls_fragment (omega arith),
                )
                (exchange-later fuel (0 + sender.max_tls_fragment) (omega arith) next (omega arith))
          | inr last ↦
              let (sender', e) = next-last 0 h (ltb-false→le _ _ last) in
              rw (
                exchange,
                receive-ack (sends 0) connect conn ready,
                e,
                receive-first receiver (take (length message - 0) message) connect' conn' ready'
                    false (length message) small unannounced,
                announced,
                gather-last 0 (length message - 0) (omega arith),
              )
        ]

-- A message of 1 to 65535 octets that one method queues is passed on to TLS, whole and alone, by
-- another that holds no fragments and expects no length, in at most as many rounds as the message
-- has octets, for any fragment size but 0: in a round the sender gets an ACK, the first time or as
-- the receiver's answer, and the receiver the fragment that the sender answers. Both have a
-- connection.
pub exchange-queue_tls_output :
    {C D : Type 0} (sender : EapTlsMethod C) (receiver : EapTlsMethod D) (message : List ℕ)
    (connect : Outcome ErrorKind C) (conn : C) (connect' : Outcome ErrorKind D) (conn' : D)
    → sender.conn ≡ some conn
    → receiver.conn ≡ some conn'
    → 0 < length message
    → length message ≤ 65535
    → 0 < sender.max_tls_fragment
    → receiver.rx_fragments ≡ []
    → receiver.rx_expected_len ≡ none
    → exchange connect connect'
        (length message)
        (build_tls_message [])
        (queue_tls_output message sender)
        receiver
      ≡ ok (passed_on receiver message)
unfolding queue_tls_output
exchange-queue_tls_output sender receiver [] connect conn connect' conn' ready ready' some_octets
      small room idle unannounced =
    absurd (omega arith)
exchange-queue_tls_output sender receiver (x ∷ xs) connect conn connect' conn' ready ready'
      some_octets small room idle unannounced =
    exchange-first sender receiver (x ∷ xs) small room connect conn ready connect' conn' ready'
      (length xs) some_octets (omega arith) idle unannounced
