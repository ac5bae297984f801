-- ===== src/Runs/Handshake4.antt =====
-- The 4-way handshake of wifi/crypto/handshake4.rs at concrete inputs, over cryptography and frames
-- that keep lengths alone.
use shuli.Base.{
  arith, ℕ, ◌≡◌, ◌≢◌, inl, refl, Bool, true, false, none, some, List, [], ◌∷◌, ◌++◌, replicate,
}
use shuli.Base.Outcome.{Outcome, ok, err, panic, out_of_fuel}
use shuli.Core.Types.{ErrorKind, handshake_failed}
use shuli.Wifi.Pmksa.{aes_cmac}
use shuli.Wifi.Handshake4.Crypto.{Primitives, expand, kdf, prf_sha1, compute_mic, aes_key_unwrap}
use shuli.Wifi.Handshake4.State.{
  KeyFrame, KeyDataKdes, Frames, FourWayState, Step, keep, after, handshake_ptk, u64_from_mac,
  macs_in_order, nonces_in_order, pairwise_ptk, derive_ptk,
}
use shuli.Wifi.Handshake4.Messages.{
  no_kdes, is_duplicate, staged, with_tptk, accepted, with_key_id, with_gtk, promoted,
  choose_key_id, sign, verify_mic, check_message_1, message_2, answer_message_1, process_message_1,
  verify_oci, rsne_ok, validate_ap_ies, open_key_data, check_message_3, take_kdes, read_key_data,
  message_4, answer_message_3, process_message_3, process_group_rekey,
}
use shuli.Wifi.Handshake4.Meet.{other_end, derive_ptk-meet}
use shuli.Wifi.Handshake4.Kept.{Settles, KeepsKeys, Installs, process_message_3-Settles}
use shuli.Wifi.Handshake4.Once.{now, then_message_3, taken-once}
use shuli.Wifi.Handshake4.Again.{process_message_1-again}
use shuli.Wired.Macsec.Desired.{from_octets}

abbrev plain_crypto : Primitives
plain_crypto = record {
  hmac_sha256 = λ key octets. replicate 32 1;
  hmac_sha1 = λ key octets. replicate 20 1;
  cmac = λ key octets. replicate 16 7;
  unwrap = λ key octets. some octets;
}

abbrev plain_frames : Frames
plain_frames = record {
  build_message_2 = λ snonce counter key_data version. snonce ++ key_data;
  build_message_4 = λ snonce counter version. snonce;
  build_group_message_2 = λ counter rsc version. rsc;
  pdu_with_zeroed_mic = λ pdu. pdu;
  set_mic = λ pdu mic. pdu ++ mic;
  parse_key_data_kdes =
      λ plain. record { gtk = some (1, plain); key_id = none; rsne = some (48 ∷ []); rsnxe = none };
  build_oci_kde = λ oci. oci;
  parse_oci_kde = λ plain. none;
  matches_freq = λ oci freq. false;
  rsne_match_ignore_pmkid = λ a b. true;
}

abbrev fresh_state : FourWayState
fresh_state = record {
  pmk = replicate 32 3;
  mac_sta = 2 ∷ 0 ∷ 0 ∷ 0 ∷ 0 ∷ 1 ∷ [];
  mac_ap = 2 ∷ 0 ∷ 0 ∷ 0 ∷ 0 ∷ 2 ∷ [];
  anonce = some (replicate 32 5);
  snonce = replicate 32 4;
  ptk = none;
  tptk = none;
  replay_counter = 0;
  replay_counter_set = false;
  pending_replay_counter = none;
  rsne = 48 ∷ [];
  ap_rsne = 48 ∷ [];
  ap_rsnxe = [];
  gtk = none;
  gtk_index = 0;
  mic_alg = aes_cmac;
  desc_version = 0;
  ft_pmk_r1 = none;
  ocv = false;
  oci = none;
  freq_mhz = 0;
  ext_key_id = false;
  key_id = none;
}

different_macs : u64_from_mac fresh_state.mac_ap ≢ u64_from_mac fresh_state.mac_sta
unfolding u64_from_mac from_octets
different_macs same = absurd (omega arith)

derive_ptk-meet_example :
    derive_ptk plain_crypto fresh_state
    ≡ derive_ptk plain_crypto (other_end (replicate 32 5) fresh_state)
derive_ptk-meet_example =
    derive_ptk-meet plain_crypto fresh_state (replicate 32 5) refl refl different_macs

abbrev message_3 : KeyFrame
message_3 = record {
  raw = 1 ∷ 2 ∷ 3 ∷ [];
  replay_counter = 2;
  key_nonce = replicate 32 6;
  key_mic = replicate 16 7;
  key_rsc = [];
  key_data = replicate 24 9;
  is_encrypted_data = true;
  desc_version = 0;
}

abbrev or_else : {A : Type 0} → A → Outcome ErrorKind A → A
or_else a (ok found) = found
or_else a _ = a

abbrev is_ok : {A : Type 0} → Outcome ErrorKind A → Bool
is_ok (ok found) = true
is_ok _ = false

or_else-ok :
    {A : Type 0} (a : A) (step : Step A)
    → is_ok step.1 ≡ true
    → step ≡ (step.0, ok (or_else a step.1))
or_else-ok a (s, ok found) e = refl
or_else-ok a (s, err kind) e = cc
or_else-ok a (s, panic) e = cc
or_else-ok a (s, out_of_fuel) e = cc

abbrev first : Step (List ℕ)
first =
    process_message_1 plain_crypto plain_frames (some (replicate 32 8)) (replicate 32 6) 1 0
      fresh_state

abbrev third : Step (List ℕ × KeyDataKdes)
third = process_message_3 plain_crypto plain_frames message_3 first.0

-- Both messages are taken, and the keys are installed.
scenario :
    (is_ok first.1 ≡ true)
    × (is_ok third.1 ≡ true)
    × (third.0.ptk ≡ first.0.tptk)
    × (third.0.gtk ≡ some (replicate 24 9))
unfolding expand kdf prf_sha1 compute_mic aes_key_unwrap keep after handshake_ptk u64_from_mac
    macs_in_order nonces_in_order pairwise_ptk derive_ptk is_duplicate staged with_tptk accepted
    with_key_id with_gtk promoted choose_key_id sign verify_mic check_message_1 message_2
    answer_message_1 process_message_1 verify_oci rsne_ok validate_ap_ies open_key_data
    check_message_3 take_kdes read_key_data message_4 answer_message_3 process_message_3 from_octets
scenario = (refl, refl, refl, refl)

process_message_1-again_example :
    process_message_1 plain_crypto plain_frames none (replicate 32 6) 1 0 first.0
    ≡ (first.0, ok (or_else [] first.1))
process_message_1-again_example =
    process_message_1-again plain_crypto plain_frames (some (replicate 32 8)) none (replicate 32 6)
      1 0 fresh_state first.0 (or_else [] first.1) (or_else-ok [] first scenario.0)

process_message_3-Settles_example :
    Settles
      (KeepsKeys first.0)
      (λ t _. Installs plain_crypto plain_frames message_3 first.0 t)
      third
process_message_3-Settles_example =
    process_message_3-Settles plain_crypto plain_frames message_3 first.0

abbrev repeated : Step (List ℕ × KeyDataKdes)
repeated = process_message_3 plain_crypto plain_frames message_3 third.0

taken-once_example :
    (process_message_3 plain_crypto plain_frames message_3 repeated.0
      ≡ (repeated.0, err handshake_failed))
    × (process_group_rekey plain_crypto plain_frames message_3 repeated.0
        ≡ (repeated.0, err handshake_failed))
taken-once_example =
    taken-once plain_crypto plain_frames message_3 first.0 third.0 repeated.0
      (or_else ([], no_kdes) third.1) (inl (or_else-ok ([], no_kdes) third scenario.1))
      (then_message_3 message_3 now)
