-- ===== src/Core/Eap/Results.antt =====
-- When a peer reports success, and what its Responses answer, in every state that it reaches.
use shuli.Base.{
  is_some_and, ℕ, ◌≡◌, refl, Bool, true, false, not, if◌then◌else◌, Option, none, some, List, [],
  arith, Bool-cases, Option-cases, inl, inr, ◌||◌, ◌==◌,
}
use shuli.Base.Outcome.{Outcome, ok, err, panic, out_of_fuel, ◌>>=◌}
use shuli.Core.Types.{ErrorKind}
use shuli.Core.Eap.{
  EapPacket, success, EapMethod, EapPeer, is_success, is_failure, new, set_method, nak, ask_method,
  method_answer, build, replayed, answer, remember, handle_request_of, handle_packet, handle_result,
}

-- A Response packet of the packet's identifier.
abbrev pub Answers : EapPacket → List ℕ → Type 0
Answers packet response =
    (kind : ℕ) × (body : List ℕ) × (response ≡ build 2 packet.identifier (some kind) body)

abbrev CacheFits : Option EapPacket → Option (List ℕ) → Type 0
CacheFits none none = Unit {0}
CacheFits (some request) (some response) = Answers request response
CacheFits _ _ = ⊥

-- The remembered Response answers the remembered Request.
abbrev pub IsConsistent : {S : Type 0} → EapPeer S → Type 0
IsConsistent peer = CacheFits peer.last_request peer.last_response

module _ {S : Type 0} (methods : EapMethod S) where
  -- The states that a peer reaches from `new`.
  pub data Reaches : EapPeer S → Type 0 where
    created : (identity : List ℕ) → Reaches (new identity)
    equipped :
        (method : S) {peer : EapPeer S} → Reaches peer → Reaches (set_method methods method peer)
    fed :
        (packet : EapPacket) {peer : EapPeer S}
        → Reaches peer
        → Reaches (handle_packet methods peer packet).1

  handle_result-success :
      (peer : EapPeer S) (packet : EapPacket)
      → handle_result methods peer packet ≡ success
      → (packet.code ≡ 3)
        × (is_some_and (λ request. not (request.identifier == packet.identifier)) peer.last_request
            ≡ false)
        × (is_some_and (λ m. not (methods.success_indication_received m)) peer.method ≡ false)
  unfolding handle_result is_success
  handle_result-success peer packet e = ground arith

  remember-no_success :
      (packet : EapPacket) (r : Outcome ErrorKind (Option (List ℕ)) × EapPeer S) (peer' : EapPeer S)
      → remember methods packet r ≡ (ok success, peer')
      → ⊥
  unfolding remember
  remember-no_success packet (ok none, peer) peer' e = cc
  remember-no_success packet (ok (some r), peer) peer' e = cc
  remember-no_success packet (err x, peer) peer' e = cc
  remember-no_success packet (panic, peer) peer' e = cc
  remember-no_success packet (out_of_fuel, peer) peer' e = cc

  handle_request_of-no_success :
      (peer peer' : EapPeer S) (packet : EapPacket) (kind : Option ℕ)
      → handle_request_of methods peer packet kind ≡ (ok success, peer')
      → ⊥
  unfolding handle_request_of
  handle_request_of-no_success peer peer' packet none e = cc
  handle_request_of-no_success peer peer' packet (some kind) e =
      remember-no_success packet (answer methods peer packet kind) peer' e

  -- A peer reports success only on a Success packet whose identifier is that of the last Request, if
  -- there is one, and only if its method, if it has one, has its success indication.
  pub handle_packet-success :
      (peer peer' : EapPeer S) (packet : EapPacket)
      → handle_packet methods peer packet ≡ (ok success, peer')
      → (packet.code ≡ 3)
        × (is_some_and (λ request. not (request.identifier == packet.identifier)) peer.last_request
            ≡ false)
        × (is_some_and (λ m. not (methods.success_indication_received m)) peer.method ≡ false)
  unfolding handle_packet
  handle_packet-success peer peer' packet e =
      elim (Bool-cases (is_success packet || is_failure packet)) [
        | inl result ↦ handle_result-success peer packet (cc (rw result at e))
        | inr request ↦ elim (Bool-cases (packet.code == 1)) [
          | inr other ↦ cc (rw (request, other) at e)
          | inl asked ↦ elim (Option-cases (replayed peer packet)) [
            | inr (r, cached) ↦ cc (rw (request, asked, cached) at e)
            | inl fresh ↦ absurd (
                handle_request_of-no_success peer peer' packet packet.type_
                  (rw (request, asked, fresh) at e))
          ]
        ]
      ]

-- A Response that answers the packet, or none, and the memory of the peer as it was.
abbrev IsAnswer : EapPacket → Outcome ErrorKind (Option (List ℕ)) → Type 0
IsAnswer packet (ok (some response)) = Answers packet response
IsAnswer packet _ = Unit {0}

record Keeps {S : Type 0} (packet : EapPacket) (peer : EapPeer S)
    (r : Outcome ErrorKind (Option (List ℕ)) × EapPeer S) : Type 0 where
  answers : IsAnswer packet r.0
  request : r.1.last_request ≡ peer.last_request
  response : r.1.last_response ≡ peer.last_response

module _ {S : Type 0} (methods : EapMethod S) (peer : EapPeer S) (packet : EapPacket) where
  Keeps-if :
      (test : Bool) (m n : Outcome ErrorKind (Option (List ℕ)) × EapPeer S)
      → Keeps packet peer m
      → Keeps packet peer n
      → Keeps packet peer (if test then m else n)
  Keeps-if true m n h k = h
  Keeps-if false m n h k = k

  IsAnswer-bind :
      (kind : ℕ) (result : Outcome ErrorKind (List ℕ))
      → IsAnswer packet (result >>= λ body. ok (some (build 2 packet.identifier (some kind) body)))
  IsAnswer-bind kind (ok body) = (kind, body, refl)
  IsAnswer-bind kind (err e) = tt
  IsAnswer-bind kind panic = tt
  IsAnswer-bind kind out_of_fuel = tt

  Keeps-response :
      (kind : ℕ) (body : List ℕ)
      → Keeps packet peer (ok (some (build 2 packet.identifier (some kind) body)), peer)
  Keeps-response kind body = record {
    answers = (kind, body, refl);
    request = refl;
    response = refl;
  }

  ask_method-Keeps : (kind : ℕ) (m : S) → Keeps packet peer (ask_method methods peer packet kind m)
  unfolding ask_method
  ask_method-Keeps kind m = record {
    answers = IsAnswer-bind kind _;
    request = refl;
    response = refl;
  }

  method_answer-Keeps :
      (kind : ℕ) (method : Option S)
      → Keeps packet peer (method_answer methods peer packet kind method)
  unfolding method_answer nak
  method_answer-Keeps kind none = Keeps-response 3 _
  method_answer-Keeps kind (some m) = Keeps-if _ _ _ (ask_method-Keeps kind m) (Keeps-response 3 _)

  answer-Keeps : (kind : ℕ) → Keeps packet peer (answer methods peer packet kind)
  unfolding answer
  answer-Keeps kind = Keeps-if (kind == 1) _ _ (Keeps-response 1 peer.identity) (
      Keeps-if (kind == 2) _ _ (Keeps-response 2 []) (
        Keeps-if (kind == 3) (ok none, peer) _
          (record { answers = tt; request = refl; response = refl })
          (method_answer-Keeps kind peer.method)))

  remember-IsConsistent :
      (r : Outcome ErrorKind (Option (List ℕ)) × EapPeer S)
      → IsConsistent peer
      → Keeps packet peer r
      → IsConsistent (remember methods packet r).1
  unfolding remember
  remember-IsConsistent (ok none, peer') h k = rw (k.request, k.response) h
  remember-IsConsistent (ok (some response), peer') h k = k.answers
  remember-IsConsistent (err x, peer') h k = rw (k.request, k.response) h
  remember-IsConsistent (panic, peer') h k = rw (k.request, k.response) h
  remember-IsConsistent (out_of_fuel, peer') h k = rw (k.request, k.response) h

  handle_request_of-IsConsistent :
      (kind : Option ℕ)
      → IsConsistent peer
      → IsConsistent (handle_request_of methods peer packet kind).1
  unfolding handle_request_of
  handle_request_of-IsConsistent none h = h
  handle_request_of-IsConsistent (some kind) h = remember-IsConsistent _ h (answer-Keeps kind)

  handle_packet-IsConsistent :
      IsConsistent peer → IsConsistent (handle_packet methods peer packet).1
  unfolding handle_packet
  handle_packet-IsConsistent h = elim (Bool-cases (is_success packet || is_failure packet)) [
    | inl result ↦ rw result h
    | inr request ↦ elim (Bool-cases (packet.code == 1)) [
      | inr other ↦ rw (request, other) h
      | inl asked ↦ elim (Option-cases (replayed peer packet)) [
        | inr (r, cached) ↦ rw (request, asked, cached) h
        | inl fresh ↦ rw (request, asked, fresh) (handle_request_of-IsConsistent packet.type_ h)
      ]
    ]
  ]

-- In every state that a peer reaches from `new`, the remembered Response is a Response of the
-- remembered Request's identifier, and neither is there without the other.
pub Reaches-IsConsistent :
    {S : Type 0} (methods : EapMethod S) (peer : EapPeer S)
    → Reaches methods peer
    → IsConsistent peer
unfolding new set_method
Reaches-IsConsistent methods _ (created identity) = tt
Reaches-IsConsistent methods _ (equipped m r) = Reaches-IsConsistent methods _ r
Reaches-IsConsistent methods _ (fed packet r) =
    handle_packet-IsConsistent methods _ packet (Reaches-IsConsistent methods _ r)
