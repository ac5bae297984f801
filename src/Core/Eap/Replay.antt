-- ===== src/Core/Eap/Replay.antt =====
-- A Request that is sent again gets the Response that it got, and the method does not see it.
use shuli.Base.{
  ℕ, ◌≡◌, true, Option, none, some, List, arith, bytes_eq_refl, option_eq_refl, Bool-cases,
  Option-cases, inl, inr, sym, ap, ◌∙◌, ◌||◌, ◌==◌,
}
use shuli.Base.Outcome.{Outcome, ok, err, panic, out_of_fuel}
use shuli.Core.Types.{ErrorKind}
use shuli.Core.Eap.{
  EapPacket, EapAction, respond, EapMethod, EapPeer, is_success, is_failure, packet_eq, replayed,
  answer, remember, handle_request_of, handle_packet, handle_result,
}

packet_eq_refl : (p : EapPacket) → packet_eq p p ≡ true
unfolding packet_eq
packet_eq_refl p = ground (arith, bytes_eq_refl p.body, option_eq_refl p.type_)

replayed-eq-some :
    {S : Type 0}
    → (peer : EapPeer S) (packet : EapPacket) (response : List ℕ) → peer.last_request ≡ some packet
    → peer.last_response ≡ some response
    → replayed peer packet ≡ some response
unfolding replayed
replayed-eq-some peer packet response h k = ground (arith, packet_eq_refl packet)

module _ {S : Type 0} (methods : EapMethod S) where
  remember-respond :
      (packet : EapPacket) (r : Outcome ErrorKind (Option (List ℕ)) × EapPeer S) (response : List ℕ)
      (peer' : EapPeer S)
      → remember methods packet r ≡ (ok (respond response), peer')
      → (peer'.last_request ≡ some packet) × (peer'.last_response ≡ some response)
  unfolding remember
  remember-respond packet (ok none, peer) response peer' e = cc
  remember-respond packet (ok (some r), peer) response peer' e =
      let same : peer' ≡ record peer { last_request = some packet; last_response = some r } =
        sym (ap (λ (x : Outcome ErrorKind EapAction × EapPeer S). x.1) e) in
      let sent : r ≡ response = cc (ap (λ (x : Outcome ErrorKind EapAction × EapPeer S). x.0) e) in
      (
        ap (λ (q : EapPeer S). q.last_request) same,
        ap (λ (q : EapPeer S). q.last_response) same ∙ ap some sent,
      )
  remember-respond packet (err x, peer) response peer' e = cc
  remember-respond packet (panic, peer) response peer' e = cc
  remember-respond packet (out_of_fuel, peer) response peer' e = cc

  handle_request_of-respond :
      (peer peer' : EapPeer S) (packet : EapPacket) (kind : Option ℕ) (response : List ℕ)
      → handle_request_of methods peer packet kind ≡ (ok (respond response), peer')
      → (peer'.last_request ≡ some packet) × (peer'.last_response ≡ some response)
  unfolding handle_request_of
  handle_request_of-respond peer peer' packet none response e = cc
  handle_request_of-respond peer peer' packet (some kind) response e =
      remember-respond packet (answer methods peer packet kind) response peer' e

  handle_result-no_respond :
      (peer : EapPeer S) (packet : EapPacket) (response : List ℕ)
      → handle_result methods peer packet ≡ respond response
      → ⊥
  unfolding handle_result
  handle_result-no_respond peer packet response e = ground arith

  -- A peer that answered a packet answers it again with the same Response, and is unchanged.
  pub handle_packet_replay :
      (peer peer' : EapPeer S) (packet : EapPacket) (response : List ℕ)
      → handle_packet methods peer packet ≡ (ok (respond response), peer')
      → handle_packet methods peer' packet ≡ (ok (respond response), peer')
  unfolding handle_packet
  handle_packet_replay peer peer' packet response e =
      elim (Bool-cases (is_success packet || is_failure packet)) [
        | inl result ↦ absurd (handle_result-no_respond peer packet response (cc (rw result at e)))
        | inr request ↦ elim (Bool-cases (packet.code == 1)) [
          | inr other ↦ cc (rw (request, other) at e)
          | inl asked ↦ elim (Option-cases (replayed peer packet)) [
            | inr (r, cached) ↦
                let same : peer ≡ peer' =
                  ap (λ (x : Outcome ErrorKind EapAction × EapPeer S). x.1)
                    (rw (request, asked, cached) at e) in
                cc
            | inl fresh ↦
                let (asked_for, answered) =
                  handle_request_of-respond peer peer' packet packet.type_ response
                    (rw (request, asked, fresh) at e) in
                rw (request, asked, replayed-eq-some peer' packet response asked_for answered)
          ]
        ]
      ]
