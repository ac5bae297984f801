-- ===== src/Core/EapTls.antt =====
-- The framing of core/eap_tls.rs: EAP-TLS messages, the fragments that a method sends, and what it
-- does with a request, from the Start to the reassembly of the fragments. The TLS connection that
-- reads and writes the messages, of the crate rustls, is a type `C` here, and its creation a
-- parameter `connect`.
pub mod Reassembly
pub mod Exchange
pub mod Limits
use shuli.Base.{
  ℕ, ◌+◌, ◌-◌, ◌^◌, min, Bool, true, false, not, Option, none, some, List, [], ◌∷◌, ◌++◌, length,
  take, drop, ltb, leb, ◌&&◌, ◌||◌, ◌==◌, if◌then◌else◌, is_some,
}
use shuli.Base.Outcome.{Outcome, ok, err, panic, out_of_fuel, refuse_if, ◌>>=◌, ◌>>◌}
use shuli.Base.Bytes.{byte, u32_at, slice_from, be32, as_u32, has_bit}
use shuli.Core.Types.{ErrorKind, handshake_failed}

-- EAP_TLS_FLAG_L is bit 7, EAP_TLS_FLAG_M bit 6 and EAP_TLS_FLAG_START bit 5 of the flags.
abbrev pub flag_l : ℕ
flag_l = 128

abbrev pub flag_m : ℕ
flag_m = 64

-- What a request comes to: a reply, or a whole message, which TLS answers.
pub data Received : Type 0 where
  reply : List ℕ → Received
  whole : Received

abbrev pub is_empty : List ℕ → Bool
is_empty [] = true
is_empty (x ∷ xs) = false

unfoldable pub build_tls_message : List ℕ → List ℕ
build_tls_message octets =
    if is_empty octets then 0 ∷ [] else flag_l ∷ (be32 (as_u32 (length octets)) ++ octets)

-- The flags and the TLS data.
unfoldable pub parse_tls_message : List ℕ → Outcome ErrorKind (ℕ × List ℕ)
parse_tls_message body = if is_empty body then ok (0, []) else do
  flags ← byte body 0
  let long = do
    refuse_if (ltb (length body) 5) handshake_failed
    octets ← slice_from body 5
    ok (flags, octets)
  let short = (do octets ← slice_from body 1; ok (flags, octets))
  if has_bit flags 7 then long else short

-- The configuration and the server's name, with which a connection is made, are left out.
pub record EapTlsMethod (C : Type 0) : Type 0 where
  pub conn : Option C
  pub rx_buf : List ℕ
  pub rx_fragments : List ℕ
  pub rx_expected_len : Option ℕ
  pub tx_queue : List ℕ
  pub tx_offset : ℕ
  pub tx_total : ℕ
  pub max_tls_fragment : ℕ
  pub msk : Option (List ℕ)
  pub protected_success : Bool

-- `|=` of the two flags, which are different bits.
abbrev pub fragment_flags : Bool → Bool → ℕ
fragment_flags first more = (if first then flag_l else 0) + (if more then flag_m else 0)

abbrev pub is_some_and_not : ℕ → Option ℕ → Bool
is_some_and_not len none = false
is_some_and_not len (some expected) = not (expected == len)

abbrev pub rx_limit : Option ℕ → ℕ
rx_limit none = 65535
rx_limit (some len) = len

abbrev pub is_none_or_equal : ℕ → Option ℕ → Bool
is_none_or_equal n none = true
is_none_or_equal n (some len) = n == len

-- The checks of the length that the L bit announces.
unfoldable pub checked_len : ℕ → Option ℕ → Outcome ErrorKind ℕ
checked_len len expected = do
  refuse_if (ltb 65535 len) handshake_failed
  refuse_if (is_some_and_not len expected) handshake_failed
  ok len

unfoldable pub announced_len : List ℕ → Option ℕ → Outcome ErrorKind ℕ
announced_len body expected = do
  refuse_if (ltb (length body) 5) handshake_failed
  len ← u32_at body 1
  checked_len len expected

module _ {C : Type 0} where
  unfoldable pub queue_tls_output : List ℕ → EapTlsMethod C → EapTlsMethod C
  queue_tls_output output m =
      if is_empty output
      then m
      else record m { tx_queue = output; tx_offset = 0; tx_total = length output }

  -- The fragment at the offset, which is inside the queue, and the method behind it.
  unfoldable pub tx_fragment : EapTlsMethod C → List ℕ × EapTlsMethod C
  tx_fragment m =
      let remaining = length m.tx_queue - m.tx_offset in
      let size = min remaining m.max_tls_fragment in
      let first = m.tx_offset == 0 in
      let more = ltb size remaining in
      (
        fragment_flags first more
            ∷ ((if first then be32 (as_u32 m.tx_total) else [])
                ++ take size (drop m.tx_offset m.tx_queue)),
        if more
            then record m { tx_offset = m.tx_offset + size }
            else record m { tx_queue = []; tx_offset = 0; tx_total = 0 },
      )

  unfoldable pub next_tx_fragment : EapTlsMethod C → List ℕ × EapTlsMethod C
  next_tx_fragment m =
      if is_empty m.tx_queue || leb (length m.tx_queue) m.tx_offset
      then (build_tls_message [], m)
      else tx_fragment m

  unfoldable pub announce : EapTlsMethod C → ℕ → List ℕ → Outcome ErrorKind (EapTlsMethod C)
  announce m flags body = if not (has_bit flags 7) then ok m else do
    len ← announced_len body m.rx_expected_len
    ok (record m { rx_expected_len = some (as_u32 len) })

  unfoldable pub clear_rx : EapTlsMethod C → EapTlsMethod C
  clear_rx m = record m { rx_fragments = []; rx_expected_len = none }

  -- A fragment joins the others, and is acknowledged. With the last of a message, all go to TLS.
  unfoldable pub gather :
      EapTlsMethod C → Bool → List ℕ → Outcome ErrorKind Received × EapTlsMethod C
  gather m more octets =
      let fragments = m.rx_fragments ++ octets in
      let m' = record m { rx_fragments = fragments } in
      if ltb (rx_limit m.rx_expected_len) (length m.rx_fragments + length octets)
      then (err handshake_failed, clear_rx m)
      else if not more && is_none_or_equal (as_u32 (length fragments)) m.rx_expected_len
      then (
        ok whole,
        record m { rx_buf = m.rx_buf ++ fragments; rx_fragments = []; rx_expected_len = none },
      )
      else if not more
      then (err handshake_failed, clear_rx m)
      else (ok (reply (build_tls_message [])), m')

  -- Behind the `?` of an error.
  unfoldable pub gather_after :
      EapTlsMethod C
      → Bool
      → List ℕ
      → Outcome ErrorKind (EapTlsMethod C)
      → Outcome ErrorKind Received × EapTlsMethod C
  gather_after m more octets (ok m') = gather m' more octets
  gather_after m more octets (err e) = (err e, m)
  gather_after m more octets panic = (panic, m)
  gather_after m more octets out_of_fuel = (out_of_fuel, m)

  -- The sender's acknowledgement asks for the next fragment.
  unfoldable pub acknowledged : EapTlsMethod C → Outcome ErrorKind Received × EapTlsMethod C
  acknowledged m = let (body, m') = next_tx_fragment m in (ok (reply body), m')

  -- A pure ACK, or a fragment.
  unfoldable pub reassemble :
      EapTlsMethod C → List ℕ → ℕ → List ℕ → Outcome ErrorKind Received × EapTlsMethod C
  reassemble m body flags octets =
      if flags == 0 && is_empty octets
      then acknowledged m
      else gather_after m (has_bit flags 6) octets (announce m flags body)

  -- Nothing is taken before the connection is there.
  unfoldable pub connected :
      EapTlsMethod C → List ℕ → ℕ → List ℕ → Option C → Outcome ErrorKind Received × EapTlsMethod C
  connected m body flags octets none = (err handshake_failed, m)
  connected m body flags octets (some conn) = reassemble m body flags octets

  -- The Start flag creates the connection, where there is none.
  unfoldable pub start_conn :
      Outcome ErrorKind C → ℕ → EapTlsMethod C → Outcome ErrorKind (EapTlsMethod C)
  start_conn connect flags m =
      if has_bit flags 5 && not (is_some m.conn)
      then (do conn ← connect; ok (record m { conn = some conn }))
      else ok m

  unfoldable pub started :
      EapTlsMethod C
      → List ℕ
      → ℕ
      → List ℕ
      → Outcome ErrorKind (EapTlsMethod C)
      → Outcome ErrorKind Received × EapTlsMethod C
  started m body flags octets (ok m') = connected m' body flags octets m'.conn
  started m body flags octets (err e) = (err e, m)
  started m body flags octets panic = (panic, m)
  started m body flags octets out_of_fuel = (out_of_fuel, m)

  unfoldable pub parsed :
      Outcome ErrorKind C
      → EapTlsMethod C
      → List ℕ
      → Outcome ErrorKind (ℕ × List ℕ)
      → Outcome ErrorKind Received × EapTlsMethod C
  parsed connect m body (ok (flags, octets)) =
      started m body flags octets (start_conn connect flags m)
  parsed connect m body (err e) = (err e, m)
  parsed connect m body panic = (panic, m)
  parsed connect m body out_of_fuel = (out_of_fuel, m)

  -- A request, as far as TLS, which reads a whole message.
  unfoldable pub receive :
      Outcome ErrorKind C → EapTlsMethod C → List ℕ → Outcome ErrorKind Received × EapTlsMethod C
  receive connect m body = parsed connect m body (parse_tls_message body)
