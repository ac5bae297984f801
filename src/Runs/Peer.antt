-- ===== src/Runs/Peer.antt =====
-- EAPOL frames, EAP packets and the EAP peer of core/eap.rs at concrete inputs.
use shuli.Base.{is_some_and, ℕ, ◌+◌, ◌≡◌, refl, false, not, some, none, [], ◌∷◌, ◌==◌}
use shuli.Base.Outcome.{ok}
use shuli.Core.Eap.{
  EapPacket, EapMethod, EapPeer, respond, success, new, set_method, build, parse, handle_packet,
  is_success, is_failure, handle_request_of, remember, answer, replayed, packet_eq, handle_result,
}
use shuli.Core.Eap.Replay.{handle_packet_replay}
use shuli.Core.Eap.Results.{
  created, equipped, fed, IsConsistent, handle_packet-success, Reaches-IsConsistent,
}

abbrev identity_request : EapPacket
identity_request = record { code = 1; identifier = 7; type_ = some 1; body = [] }

abbrev success_packet : EapPacket
success_packet = record { code = 3; identifier = 7; type_ = none; body = [] }

-- A method whose state counts the Requests that it saw.
abbrev counting : EapMethod ℕ
counting = record {
  method_type = λ n. 13;
  handle_request = λ n identifier body. (ok (n ∷ []), n + 1);
  msk = λ n. none;
  success_indication_received = λ n. not (n == 0);
}

abbrev method_request : EapPacket
method_request = record { code = 1; identifier = 8; type_ = some 13; body = 5 ∷ [] }

abbrev method_success : EapPacket
method_success = record { code = 3; identifier = 8; type_ = none; body = [] }

abbrev equipped_peer : EapPeer ℕ
equipped_peer = record {
  identity = 105 ∷ [];
  method = some 0;
  supported_types = 13 ∷ [];
  last_request = none;
  last_response = none;
}

abbrev answered_peer : EapPeer ℕ
answered_peer = record {
  identity = 105 ∷ [];
  method = some 1;
  supported_types = 13 ∷ [];
  last_request = some method_request;
  last_response = some (build 2 8 (some 13) (0 ∷ []));
}

answered :
    handle_packet counting equipped_peer method_request
    ≡ (ok (respond (build 2 8 (some 13) (0 ∷ []))), answered_peer)
unfolding handle_packet is_success is_failure replayed handle_request_of remember answer
    shuli.Core.Eap.method_answer shuli.Core.Eap.ask_method
answered = refl

handle_packet_replay_example :
    handle_packet counting answered_peer method_request
    ≡ (ok (respond (build 2 8 (some 13) (0 ∷ []))), answered_peer)
handle_packet_replay_example =
    handle_packet_replay counting equipped_peer answered_peer method_request
      (build 2 8 (some 13) (0 ∷ [])) answered

succeeded : handle_packet counting answered_peer method_success ≡ (ok success, answered_peer)
unfolding handle_packet is_success is_failure handle_result
succeeded = refl

handle_packet-success_example :
    (method_success.code ≡ 3)
    × (is_some_and
          (λ request. not (request.identifier == method_success.identifier))
          answered_peer.last_request
        ≡ false)
    × (is_some_and (λ m. not (counting.success_indication_received m)) answered_peer.method ≡ false)
handle_packet-success_example =
    handle_packet-success counting answered_peer answered_peer method_success succeeded

Reaches-IsConsistent_example :
    IsConsistent (handle_packet counting (set_method counting 0 (new (105 ∷ []))) method_request).1
Reaches-IsConsistent_example =
    Reaches-IsConsistent counting
      (handle_packet counting (set_method counting 0 (new (105 ∷ []))) method_request).1
      (fed method_request (equipped 0 (created (105 ∷ []))))
