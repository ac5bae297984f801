-- ===== src/Ike/Types.antt =====
-- The data of ipsec/ikev2/codec.rs and the error kinds of ipsec/error.rs. A number is the u8, u16,
-- u32 or u64 that the source declares; a `Vec<u8>` is a list of bytes.
use shuli.Base.{ℕ, Option, none, some, List, Bool, ◌==◌, if◌then◌else◌}

-- `IpsecErrorKind`. Of an `IpsecError` the kind is kept, and its message is not.
pub data IpsecErrorKind : Type 0 where
  config io netlink netlink_decode xfrm ike authentication proposal identity : IpsecErrorKind
  certificate eap timeout peer_not_found no_support internal : IpsecErrorKind

pub data ExchangeType : Type 0 where
  ike_sa_init ike_auth create_child_sa informational : ExchangeType

-- `exchange as u8`
unfoldable pub exchange_as_u8 : ExchangeType → ℕ
exchange_as_u8 ike_sa_init = 34
exchange_as_u8 ike_auth = 35
exchange_as_u8 create_child_sa = 36
exchange_as_u8 informational = 37

unfoldable pub exchange_from_u8 : ℕ → Option ExchangeType
exchange_from_u8 value =
    if value == 34
    then some ike_sa_init
    else if value == 35
    then some ike_auth
    else if value == 36
    then some create_child_sa
    else if value == 37
    then some informational
    else none

pub record IkeHeader : Type 0 where
  pub initiator_spi : ℕ
  pub responder_spi : ℕ
  pub next_payload : ℕ
  pub version : ℕ
  pub exchange : ExchangeType
  pub flags : ℕ
  pub message_id : ℕ
  pub length : ℕ

pub record TransformAttribute : Type 0 where
  pub type_ : ℕ
  pub value : List ℕ

pub record Transform : Type 0 where
  pub transform_type : ℕ
  pub id : ℕ
  pub attributes : List TransformAttribute

pub record Proposal : Type 0 where
  pub number : ℕ
  pub protocol : ℕ
  pub spi : List ℕ
  pub transforms : List Transform

-- `std::net::IpAddr`: the four octets of an IPv4 address, or the sixteen of an IPv6 address.
pub data IpAddr : Type 0 where
  v4 : List ℕ → IpAddr
  v6 : List ℕ → IpAddr

pub record TsSelector : Type 0 where
  pub ts_type : ℕ
  pub protocol : ℕ
  pub start_port : ℕ
  pub end_port : ℕ
  pub start : IpAddr
  pub end : IpAddr

pub record ConfigAttribute : Type 0 where
  pub type_ : ℕ
  pub value : List ℕ

-- The fields stand in the source's order: `ke group data`, `id initiator id_type data`,
-- `notify protocol spi notify_type data`, `delete protocol spi_size spis`.
pub data Payload : Type 0 where
  sa : List Proposal → Payload
  ke : ℕ → List ℕ → Payload
  id : Bool → ℕ → List ℕ → Payload
  cert : ℕ → List ℕ → Payload
  cert_req : ℕ → List ℕ → Payload
  auth : ℕ → List ℕ → Payload
  nonce : List ℕ → Payload
  notify : ℕ → List ℕ → ℕ → List ℕ → Payload
  delete : ℕ → ℕ → List ℕ → Payload
  ts : Bool → List TsSelector → Payload
  configuration : List ConfigAttribute → Payload
  eap_packet : List ℕ → Payload
  encrypted : ℕ → List ℕ → Payload
  other : ℕ → List ℕ → Payload

pub record Message : Type 0 where
  pub header : IkeHeader
  pub payloads : List Payload

-- `payload_type::…`
abbrev pub none_payload : ℕ
none_payload = 0

abbrev pub sa_payload : ℕ
sa_payload = 33

abbrev pub ke_payload : ℕ
ke_payload = 34

abbrev pub idi_payload : ℕ
idi_payload = 35

abbrev pub idr_payload : ℕ
idr_payload = 36

abbrev pub cert_payload : ℕ
cert_payload = 37

abbrev pub certreq_payload : ℕ
certreq_payload = 38

abbrev pub auth_payload : ℕ
auth_payload = 39

abbrev pub nonce_payload : ℕ
nonce_payload = 40

abbrev pub notify_payload : ℕ
notify_payload = 41

abbrev pub delete_payload : ℕ
delete_payload = 42

abbrev pub tsi_payload : ℕ
tsi_payload = 44

abbrev pub tsr_payload : ℕ
tsr_payload = 45

abbrev pub sk_payload : ℕ
sk_payload = 46

abbrev pub cp_payload : ℕ
cp_payload = 47

abbrev pub eap_payload : ℕ
eap_payload = 48

abbrev pub ike_header_len : ℕ
ike_header_len = 28

abbrev pub ike_version_2 : ℕ
ike_version_2 = 0x20
