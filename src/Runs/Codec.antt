-- ===== src/Runs/Codec.antt =====
-- Headers, SA and TS payloads at concrete inputs of ipsec/ikev2/codec.rs.
use shuli.Base.{ℕ, ◌≡◌, refl, List, [], ◌∷◌, arith, replicate}
use shuli.Base.Outcome.{ok, err, Returns}
use shuli.Ike.Types.{
  ike, no_support, ike_auth, IkeHeader, v4, Transform, Proposal, TsSelector, exchange_from_u8,
}
use shuli.Ike.Header.{decode}
use shuli.Ike.Header.RoundTrip.{IsWireHeader, decode-Returns}
use shuli.Ike.Sa.{
  encode_sa, decode_sa, encode_attribute, encode_attributes, encode_transform, encode_transforms,
  proposal_body,
}
use shuli.Ike.Sa.RoundTrip.{IsWireProposal, decode_sa-encode_sa}
use shuli.Ike.Sa.Transforms.{IsWireTransform}
use shuli.Ike.Selector.RoundTrip.{IsWireSelector}

abbrev auth_header : IkeHeader
auth_header = record {
  initiator_spi = 0x0102030405060708;
  responder_spi = 0x1112131415161718;
  next_payload = 46;
  version = 0x20;
  exchange = ike_auth;
  flags = 8;
  message_id = 1;
  length = 30;
}

abbrev aes_transform : Transform
aes_transform = record {
  transform_type = 1;
  id = 20;
  attributes = record { type_ = 14; value = 1 ∷ 0 ∷ [] } ∷ [];
}

abbrev esp_proposal : Proposal
esp_proposal = record {
  number = 1;
  protocol = 3;
  spi = 1 ∷ 2 ∷ 3 ∷ 4 ∷ [];
  transforms = aes_transform ∷ [];
}

abbrev any_host : TsSelector
any_host = record {
  ts_type = 7;
  protocol = 0;
  start_port = 0;
  end_port = 65535;
  start = v4 (0 ∷ 0 ∷ 0 ∷ 0 ∷ []);
  end = v4 (255 ∷ 255 ∷ 255 ∷ 255 ∷ []);
}

auth_header-IsWireHeader : IsWireHeader auth_header
auth_header-IsWireHeader = record {
  initiator_spi = ground arith;
  responder_spi = ground arith;
  message_id = ground arith;
  length = ground arith;
  version = refl;
  covers = ground arith;
}

decode-Returns_example : Returns (decode (replicate 28 0x20))
decode-Returns_example = decode-Returns (replicate 28 0x20)

-- A short buffer, and a version that is not 2.
short_header : decode (replicate 27 0) ≡ err ike
unfolding decode
short_header = refl

old_version : decode (replicate 28 0x10) ≡ err no_support
unfolding decode exchange_from_u8
old_version = refl

aes_transform-IsWireTransform : IsWireTransform aes_transform
unfolding encode_attributes encode_attribute
aes_transform-IsWireTransform = record {
  id = ground arith;
  attributes = ((ground arith, ground arith), tt);
  length = ground arith;
}

esp_proposal-IsWireProposal : IsWireProposal esp_proposal
unfolding proposal_body encode_transforms encode_transform encode_attributes encode_attribute
esp_proposal-IsWireProposal = record {
  spi = ground arith;
  count = ground arith;
  transforms = (aes_transform-IsWireTransform, tt);
  length = ground arith;
}

decode_sa-encode_sa_example :
    (body : List ℕ) × (encode_sa (esp_proposal ∷ []) ≡ ok body)
    × (decode_sa body ≡ ok (esp_proposal ∷ []))
decode_sa-encode_sa_example =
    decode_sa-encode_sa (esp_proposal ∷ []) (esp_proposal-IsWireProposal, tt)

any_host-IsWireSelector : IsWireSelector any_host
any_host-IsWireSelector = record {
  start_port = ground arith;
  end_port = ground arith;
  addresses = (refl, refl, refl);
}
