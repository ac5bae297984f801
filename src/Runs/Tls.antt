-- ===== src/Runs/Tls.antt =====
-- Fragments of core/eap_tls.rs between two methods, at concrete messages.
use shuli.Base.{ℕ, ◌≤◌, ◌≡◌, refl, false, none, some, List, [], ◌∷◌, length, arith}
use shuli.Base.Outcome.{ok, err, Returns}
use shuli.Core.Types.{handshake_failed}
use shuli.Core.EapTls.{
  EapTlsMethod, queue_tls_output, receive, parse_tls_message, announce, announced_len, checked_len,
  gather_after, reassemble, parsed, start_conn, started, connected, gather, build_tls_message,
}
use shuli.Core.EapTls.Exchange.{exchange, passed_on, exchange-queue_tls_output}
use shuli.Core.EapTls.Limits.{IsLimited, receive-IsLimited}

-- A method that sends two octets at a time.
abbrev idle_method : EapTlsMethod ℕ
idle_method = record {
  conn = none;
  rx_buf = 9 ∷ [];
  rx_fragments = [];
  rx_expected_len = none;
  tx_queue = [];
  tx_offset = 0;
  tx_total = 0;
  max_tls_fragment = 2;
  msk = none;
  protected_success = false;
}

-- The same behind a Start.
abbrev connected_method : EapTlsMethod ℕ
connected_method = record idle_method { conn = some 3 }

abbrev five_octets : List ℕ
five_octets = 1 ∷ 2 ∷ 3 ∷ 4 ∷ 5 ∷ []

exchange-queue_tls_output_example :
    exchange
      (ok 0)
      (ok 0)
      5
      (build_tls_message [])
      (queue_tls_output five_octets connected_method)
      connected_method
    ≡ ok (passed_on connected_method five_octets)
exchange-queue_tls_output_example =
    exchange-queue_tls_output connected_method connected_method five_octets (ok 0) 3 (ok 0) 3 refl
      refl (omega arith) (omega arith) (omega arith) refl refl

-- Data before Start is refused.
before_start : (receive (ok 0) idle_method (0 ∷ 22 ∷ 3 ∷ [])).0 ≡ err handshake_failed
unfolding receive parse_tls_message parsed start_conn started connected shuli.Base.Bytes.slice_from
before_start = refl

-- The Start flag creates the connection.
after_start : (receive (ok 7) idle_method (32 ∷ [])).1.conn ≡ some 7
unfolding receive parse_tls_message parsed start_conn started connected reassemble announce
    gather_after gather shuli.Base.Bytes.slice_from
after_start = refl

-- A length of 65536 is refused.
too_long : (receive (ok 0) connected_method (128 ∷ 0 ∷ 1 ∷ 0 ∷ 0 ∷ 7 ∷ [])).0 ≡ err handshake_failed
unfolding receive parse_tls_message parsed start_conn started connected reassemble gather_after
    announce announced_len checked_len shuli.Base.Bytes.slice_from
too_long = refl

receive-IsLimited_example :
    Returns (receive (ok 7) idle_method (224 ∷ 0 ∷ 0 ∷ 0 ∷ 9 ∷ 7 ∷ [])).0
    × IsLimited (receive (ok 7) idle_method (224 ∷ 0 ∷ 0 ∷ 0 ∷ 9 ∷ 7 ∷ [])).1
receive-IsLimited_example =
    receive-IsLimited (ok 7) tt idle_method (224 ∷ 0 ∷ 0 ∷ 0 ∷ 9 ∷ 7 ∷ [])
      (record { held = omega arith; announced = omega arith })
