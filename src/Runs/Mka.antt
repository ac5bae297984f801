-- ===== src/Runs/Mka.antt =====
-- The key hierarchy and the frames of wired/mka.rs at concrete inputs, over cryptography that keeps
-- lengths alone.
use shuli.Base.{
  ℕ, ◌*◌, ◌≡◌, refl, true, false, none, some, List, [], ◌∷◌, ◌++◌, arith, length, replicate, take,
  drop, length-append, leb, ltb, if◌then◌else◌,
}
use shuli.Base.Outcome.{Outcome, ok, err, Returns}
use shuli.Base.Bytes.{be16}
use shuli.Core.Types.{ErrorKind, handshake_failed}
use shuli.Wired.Mka.Types.{MkaPdu, pae_group_addr, algo_agility, mka_version}
use shuli.Wired.Mka.Kdf.{
  Primitives, Documented, kek_label, aes_kdf, derive_eap_cak, derive_eap_ckn, is_aes_key, cmac_aes,
}
use shuli.Wired.Mka.Kdf.Blocks.{blocks, aes_kdf-blocks}
use shuli.Wired.Mka.Kdf.Laws.{derive_eap-meet}
use shuli.Wired.Mka.Pdu.Write.{
  bit, high_bits, pad_loop, pad4, basic_flags, write_basic, set_header, write_peer_ids, write_peers,
  write_key_id, write_sak_use, write_dist_sak, write_body,
}
use shuli.Wired.Mka.Pdu.Read.{parse_body}
use shuli.Wired.Mka.Pdu.Frame.{build_eapol, parse, frame_of, compute_icv}
use shuli.Wired.Mka.Pdu.Loop.{IsWirePdu}
use shuli.Wired.Mka.Pdu.Authentic.{parse-build_eapol, parse-Authentic}
use shuli.Wired.Mka.Pdu.Total.{Returns-parse}

abbrev pub plain_crypto : Primitives
plain_crypto = record {
  cmac = λ key msg. replicate 16 7;
  wrap = λ kek text. some (replicate 8 5 ++ text);
  unwrap = λ kek wrapped. some (drop 8 wrapped);
}

pub plain_crypto-Documented : Documented plain_crypto
plain_crypto-Documented = record {
  cmac-length = λ key msg. refl;
  wrap-unwrap = λ kek text h two blocks.
      (replicate 8 5 ++ text, refl, omega (arith, length-append (replicate 8 5) text), refl);
}

abbrev pub key16 : List ℕ
key16 = replicate 16 1

abbrev zeros : List ℕ
zeros = replicate 24 0

abbrev pub mac_a : List ℕ
mac_a = 2 ∷ 0 ∷ 0 ∷ 0 ∷ 0 ∷ 1 ∷ []

abbrev pub mac_b : List ℕ
mac_b = 2 ∷ 0 ∷ 0 ∷ 0 ∷ 0 ∷ 2 ∷ []

derive_eap-meet_example :
    (derive_eap_cak plain_crypto key16 mac_a mac_b ≡ derive_eap_cak plain_crypto key16 mac_b mac_a)
    × (derive_eap_ckn plain_crypto key16 (9 ∷ []) mac_a mac_b
        ≡ derive_eap_ckn plain_crypto key16 (9 ∷ []) mac_b mac_a)
derive_eap-meet_example = derive_eap-meet plain_crypto key16 (9 ∷ []) mac_a mac_b

aes_kdf-blocks_example : aes_kdf plain_crypto key16 kek_label (9 ∷ []) zeros ≡ (
    if leb (length zeros) 4064
    then ok (
        take (length zeros) (blocks plain_crypto key16 kek_label (9 ∷ []) (length zeros * 8) 254 1))
    else err handshake_failed)
aes_kdf-blocks_example =
    aes_kdf-blocks plain_crypto plain_crypto-Documented key16 kek_label (9 ∷ []) zeros refl

Returns-parse_example : Returns (parse plain_crypto (3 ∷ 5 ∷ 0 ∷ 20 ∷ 1 ∷ []) mac_a mac_b key16)
Returns-parse_example = Returns-parse plain_crypto (3 ∷ 5 ∷ 0 ∷ 20 ∷ 1 ∷ []) mac_a mac_b key16

-- A participant that has heard one other.
abbrev pub lone_pdu : MkaPdu
lone_pdu = record {
  basic = record {
    version = mka_version;
    priority = 16;
    key_server = true;
    macsec_desired = true;
    macsec_capability = 2;
    sci = mac_a ++ (0 ∷ 1 ∷ []);
    mi = replicate 12 3;
    mn = 7;
    algo_agility = algo_agility;
    ckn = 9 ∷ 9 ∷ [];
  };
  live_peers = record { mi = replicate 12 4; mn = 2 } ∷ [];
  potential_peers = [];
  sak_use = none;
  dist_sak = none;
}

lone_pdu-IsWirePdu : IsWirePdu lone_pdu
lone_pdu-IsWirePdu = record {
  basic = record {
    capability = omega arith;
    sci = refl;
    mi = refl;
    mn = omega arith;
    agility = refl;
    ckn = omega arith;
  };
  live_peers = (record { mi = refl; mn = omega arith }, tt);
  live_short = omega arith;
  potential_peers = tt;
  potential_short = omega arith;
  sak_use = tt;
  dist_sak = tt;
}

parse-build_eapol_example :
    (frame : List ℕ) × (build_eapol plain_crypto lone_pdu pae_group_addr mac_a key16 ≡ ok frame)
    × (parse plain_crypto (frame ++ (0 ∷ 0 ∷ [])) pae_group_addr mac_a key16 ≡ ok (some lone_pdu))
parse-build_eapol_example =
    parse-build_eapol plain_crypto plain_crypto-Documented lone_pdu pae_group_addr mac_a key16
      (0 ∷ 0 ∷ []) lone_pdu-IsWirePdu refl

-- The octets of that frame, with a trailer.
abbrev lone_octets : List ℕ
lone_octets = frame_of (write_body lone_pdu) ++ replicate 16 7

abbrev pub lone_frame : List ℕ
lone_frame = lone_octets ++ (0 ∷ 0 ∷ [])

lone_octets-built : build_eapol plain_crypto lone_pdu pae_group_addr mac_a key16 ≡ ok lone_octets
unfolding build_eapol compute_icv cmac_aes frame_of write_body write_dist_sak write_sak_use
    write_peers pad4 basic_flags bit high_bits pad_loop set_header write_basic write_key_id
    write_peer_ids
lone_octets-built = refl

pub lone_frame-long : ltb (length lone_frame) 4 ≡ false
unfolding frame_of write_body write_dist_sak write_sak_use write_peers pad4 basic_flags bit
    high_bits pad_loop set_header write_basic write_key_id write_peer_ids
lone_frame-long = refl

same_result : (m : Outcome ErrorKind (List ℕ)) {a b : List ℕ} → m ≡ ok a → m ≡ ok b → a ≡ b
same_result m e f = cc (e, f)

pub parse-lone_frame : parse plain_crypto lone_frame pae_group_addr mac_a key16 ≡ ok (some lone_pdu)
parse-lone_frame =
    let (frame, built, parsed) = parse-build_eapol_example in
    let same = same_result _ built lone_octets-built in rw same at parsed

parse-Authentic_example :
    (covered : List ℕ) × (trailer : List ℕ) × (lone_frame
      ≡ covered
        ++ (plain_crypto.cmac key16 (pae_group_addr ++ (mac_a ++ (be16 34958 ++ covered)))
            ++ trailer))
    × (is_aes_key key16 ≡ true)
    × (parse_body (drop 4 covered) ≡ ok lone_pdu)
parse-Authentic_example =
    parse-Authentic plain_crypto plain_crypto-Documented lone_frame pae_group_addr mac_a key16
      lone_pdu parse-lone_frame
