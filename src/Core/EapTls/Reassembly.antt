-- ===== src/Core/EapTls/Reassembly.antt =====
-- What a receiver makes of one fragment: where it joins the others, and where it ends a message.
use shuli.Base.{
  ℕ, ◌+◌, ◌≤◌, ◌<◌, ◌≡◌, refl, Bool, true, false, none, some, List, [], ◌∷◌, ◌++◌, length, arith,
  length-append,
}
use shuli.Base.Outcome.{Outcome, ok}
use shuli.Base.Bytes.{slice_from, as_u32, be32, from_be32-be32}
use shuli.Core.EapTls.{
  EapTlsMethod, fragment_flags, announce, announced_len, checked_len, gather_after, gather,
  reassemble, receive, parse_tls_message, reply, whole, acknowledged, connected, start_conn,
  started, parsed, is_empty, next_tx_fragment, build_tls_message,
}
use shuli.Core.Types.{ErrorKind}

pub is_empty-false : (xs : List ℕ) → 0 < length xs → is_empty xs ≡ false
is_empty-false [] h = absurd (omega arith)
is_empty-false (x ∷ xs) h = refl

-- What the receiver makes of a first fragment's body, and of a later one.
module _ {D : Type 0} (m : EapTlsMethod D) (octets : List ℕ) where
  announce-first :
      (more : Bool) (total : ℕ)
      → total ≤ 65535
      → m.rx_expected_len ≡ none
      → announce m
          (fragment_flags true more)
          (fragment_flags true more ∷ (be32 (as_u32 total) ++ octets))
        ≡ ok (record m { rx_expected_len = some total })
  unfolding announce announced_len checked_len
  announce-first true total h e =
      let same : as_u32 total ≡ total = omega arith in
      ground (arith, from_be32-be32 total (omega arith), same)
  announce-first false total h e =
      let same : as_u32 total ≡ total = omega arith in
      ground (arith, from_be32-be32 total (omega arith), same)

  parse-first :
      (more : Bool) (total : ℕ)
      → parse_tls_message (fragment_flags true more ∷ (be32 (as_u32 total) ++ octets))
        ≡ ok (fragment_flags true more, octets)
  unfolding parse_tls_message slice_from
  parse-first true total = ground arith
  parse-first false total = ground arith

  module _ (connect : Outcome ErrorKind D) (conn : D) (ready : m.conn ≡ some conn) where
    -- With a connection, a request is reassembled as it is parsed.
    receive-parsed :
        (body : List ℕ) (flags : ℕ)
        → parse_tls_message body ≡ ok (flags, octets)
        → receive connect m body ≡ reassemble m body flags octets
    unfolding receive parsed started start_conn connected
    receive-parsed body flags e = ground (arith, e, ready)

    pub receive-first :
        (more : Bool) (total : ℕ)
        → total ≤ 65535
        → m.rx_expected_len ≡ none
        → receive connect m (fragment_flags true more ∷ (be32 (as_u32 total) ++ octets))
          ≡ gather (record m { rx_expected_len = some total }) more octets
    unfolding reassemble gather_after
    receive-first true total h e = rw (
      receive-parsed (192 ∷ (be32 (as_u32 total) ++ octets)) 192 (parse-first true total),
      announce-first true total h e,
    )
    receive-first false total h e = rw (
      receive-parsed (128 ∷ (be32 (as_u32 total) ++ octets)) 128 (parse-first false total),
      announce-first false total h e,
    )

    pub receive-later :
        (more : Bool)
        → 0 < length octets
        → receive connect m (fragment_flags false more ∷ octets) ≡ gather m more octets
    unfolding parse_tls_message reassemble gather_after announce slice_from
    receive-later true h = receive-parsed (64 ∷ octets) 64 (ground arith)
    receive-later false h =
        rw (receive-parsed (0 ∷ octets) 0 (ground arith), is_empty-false octets h)

-- A pure ACK is answered with the next fragment.
pub receive-ack :
    {C : Type 0} (m : EapTlsMethod C) (connect : Outcome ErrorKind C) (conn : C)
    → m.conn ≡ some conn
    → receive connect m (build_tls_message [])
      ≡ (ok (reply (next_tx_fragment m).0), (next_tx_fragment m).1)
unfolding build_tls_message parse_tls_message slice_from reassemble acknowledged
receive-ack m connect conn ready = receive-parsed m [] connect conn ready (0 ∷ []) 0 refl

module _ {D : Type 0} (receiver : EapTlsMethod D) (held octets : List ℕ) (total : ℕ) where
  pub gather-joined :
      length held + length octets ≤ total
      → gather (record receiver { rx_fragments = held; rx_expected_len = some total }) true octets
        ≡ (
          ok (reply (build_tls_message [])),
          record receiver { rx_fragments = held ++ octets; rx_expected_len = some total },
        )
  unfolding gather
  gather-joined h = ground arith

  pub gather-whole :
      length held + length octets ≡ total
      → total ≤ 65535
      → gather (record receiver { rx_fragments = held; rx_expected_len = some total }) false octets
        ≡ (
          ok whole,
          record receiver {
            rx_buf = receiver.rx_buf ++ (held ++ octets);
            rx_fragments = [];
            rx_expected_len = none;
          },
        )
  unfolding gather
  gather-whole h small = ground (arith, length-append held octets)
