-- ===== src/Core/Eap.antt =====
-- core/eap.rs: EAP packets and the peer state machine. A parser's `None` is `err tt`.
pub mod Packet
pub mod Replay
pub mod Results
use shuli.Base.{
  ℕ, ◌+◌, Bool, true, false, not, Option, none, some, List, [], ◌∷◌, ◌++◌, length, ltb, retain,
  ◌||◌, ◌&&◌, ◌==◌, if◌then◌else◌, bytes_eq, option_eq, is_some_and,
}
use shuli.Base.Outcome.{Outcome, ok, err, panic, out_of_fuel, refuse_if, ◌>>=◌, ◌>>◌}
use shuli.Base.Bytes.{byte, u16_at, slice, be16, as_u16}
use shuli.Core.Types.{ErrorKind, handshake_failed}

pub record EapPacket : Type 0 where
  pub code : ℕ
  pub identifier : ℕ
  pub type_ : Option ℕ
  pub body : List ℕ

abbrev pub type_octets : Option ℕ → List ℕ
type_octets none = []
type_octets (some t) = t ∷ []

unfoldable pub build : ℕ → ℕ → Option ℕ → List ℕ → List ℕ
build code identifier type_ body =
    let len = 4 + length (type_octets type_) + length body in
    (code ∷ identifier ∷ []) ++ (be16 (as_u16 len) ++ (type_octets type_ ++ body))

-- The `match code`, for a packet of so many octets.
unfoldable pub parse_type : List ℕ → ℕ → ℕ → Outcome (Unit {0}) (Option ℕ × ℕ)
parse_type pdu code len =
    let result = (do refuse_if (not (len == 4)) tt; ok (none, 4)) in
    let typed = (do refuse_if (ltb len (4 + 1)) tt; t ← byte pdu 4; ok (some t, 4 + 1)) in
    if code == 3 || code == 4 then result else if code == 1 || code == 2 then typed else err tt

unfoldable pub parse : List ℕ → Outcome (Unit {0}) EapPacket
parse pdu = do
  refuse_if (ltb (length pdu) 4) tt
  code ← byte pdu 0
  identifier ← byte pdu 1
  len ← u16_at pdu 2
  refuse_if (ltb len 4 || ltb (length pdu) len) tt
  (type_, body_start) ← parse_type pdu code len
  body ← slice pdu body_start len
  ok (record { code = code; identifier = identifier; type_ = type_; body = body })

unfoldable pub is_success : EapPacket → Bool
is_success packet = packet.code == 3

unfoldable pub is_failure : EapPacket → Bool
is_failure packet = packet.code == 4

-- `==` on packets, which is derived.
unfoldable pub packet_eq : EapPacket → EapPacket → Bool
packet_eq p q =
    p.code == q.code
    && (p.identifier == q.identifier && (option_eq p.type_ q.type_ && bytes_eq p.body q.body))

pub data EapAction : Type 0 where
  respond : List ℕ → EapAction
  success failure wait : EapAction

-- The trait `EapMethod`, over the state of a method.
pub record EapMethod (S : Type 0) : Type 0 where
  pub method_type : S → ℕ
  pub handle_request : S → ℕ → List ℕ → Outcome ErrorKind (List ℕ) × S
  pub msk : S → Option (List ℕ)
  pub success_indication_received : S → Bool

-- The identity is its octets.
pub record EapPeer (S : Type 0) : Type 0 where
  pub identity : List ℕ
  pub method : Option S
  pub supported_types : List ℕ
  pub last_request : Option EapPacket
  pub last_response : Option (List ℕ)

module _ {S : Type 0} where
  unfoldable pub new : List ℕ → EapPeer S
  new identity = record {
    identity = identity;
    method = none;
    supported_types = [];
    last_request = none;
    last_response = none;
  }

  -- `Some(packet)` is the last request, and its response is there.
  unfoldable pub replayed : EapPeer S → EapPacket → Option (List ℕ)
  replayed peer packet =
      if is_some_and (λ request. packet_eq request packet) peer.last_request
      then peer.last_response
      else none

  -- A Nak names the types that the peer can do.
  unfoldable pub nak : EapPeer S → EapPacket → List ℕ
  nak peer packet =
      build 2 packet.identifier (some 3)
        (retain (λ t. not (t == 1) && not (t == 3)) peer.supported_types)

module _ {S : Type 0} (methods : EapMethod S) where
  unfoldable pub set_method : S → EapPeer S → EapPeer S
  set_method method peer = record peer {
    method = some method;
    supported_types = methods.method_type method ∷ [];
  }

  unfoldable pub peer_msk : EapPeer S → Option (List ℕ)
  peer_msk peer = elim peer.method [ none ↦ none | some method ↦ methods.msk method ]

  -- A Success or Failure packet.
  unfoldable pub handle_result : EapPeer S → EapPacket → EapAction
  handle_result peer packet =
      if is_some_and (λ request. not (request.identifier == packet.identifier)) peer.last_request
      then wait
      else if not (is_success packet)
      then failure
      else if is_some_and (λ m. not (methods.success_indication_received m)) peer.method
      then wait
      else success

  -- The method answers a Request of its type.
  unfoldable pub ask_method :
      EapPeer S → EapPacket → ℕ → S → Outcome ErrorKind (Option (List ℕ)) × EapPeer S
  ask_method peer packet kind m =
      let (result, m') = methods.handle_request m packet.identifier packet.body in
      (
        (do body ← result; ok (some (build 2 packet.identifier (some kind) body))),
        record peer { method = some m' },
      )

  -- The last two arms of the `match`, on `self.method`.
  unfoldable pub method_answer :
      EapPeer S → EapPacket → ℕ → Option S → Outcome ErrorKind (Option (List ℕ)) × EapPeer S
  method_answer peer packet kind none = (ok (some (nak peer packet)), peer)
  method_answer peer packet kind (some m) =
      if methods.method_type m == kind
      then ask_method peer packet kind m
      else (ok (some (nak peer packet)), peer)

  -- The Response to a Request of a type, none where there is nothing to do, and the peer with its
  -- method as the method left it.
  unfoldable pub answer :
      EapPeer S → EapPacket → ℕ → Outcome ErrorKind (Option (List ℕ)) × EapPeer S
  answer peer packet kind =
      if kind == 1
      then (ok (some (build 2 packet.identifier (some 1) peer.identity)), peer)
      else if kind == 2
      then (ok (some (build 2 packet.identifier (some 2) [])), peer)
      else if kind == 3
      then (ok none, peer)
      else method_answer peer packet kind peer.method

  -- The last lines of `handle_packet`, behind the early return of a Nak and the `?` of a method.
  unfoldable pub remember :
      EapPacket
      → Outcome ErrorKind (Option (List ℕ)) × EapPeer S
      → Outcome ErrorKind EapAction × EapPeer S
  remember packet (ok none, peer) = (ok wait, peer)
  remember packet (ok (some response), peer) = (
    ok (respond response),
    record peer { last_request = some packet; last_response = some response },
  )
  remember packet (err e, peer) = (err e, peer)
  remember packet (panic, peer) = (panic, peer)
  remember packet (out_of_fuel, peer) = (out_of_fuel, peer)

  unfoldable pub handle_request_of :
      EapPeer S → EapPacket → Option ℕ → Outcome ErrorKind EapAction × EapPeer S
  handle_request_of peer packet none = (err handshake_failed, peer)
  handle_request_of peer packet (some kind) = remember packet (answer peer packet kind)

  unfoldable pub handle_packet : EapPeer S → EapPacket → Outcome ErrorKind EapAction × EapPeer S
  handle_packet peer packet =
      if is_success packet || is_failure packet
      then (ok (handle_result peer packet), peer)
      else if not (packet.code == 1)
      then (ok wait, peer)
      else elim (replayed peer packet) [
        | some response ↦ (ok (respond response), peer)
        | none ↦ handle_request_of peer packet packet.type_
      ]
