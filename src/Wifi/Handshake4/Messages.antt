-- ===== src/Wifi/Handshake4/Messages.antt =====
-- `process_message_1`, `process_message_3` and `process_group_rekey` of `FourWayState`.
use shuli.Base.{
  ℕ, Bool, true, false, not, Option, none, some, List, ◌++◌, length, ltb, leb, ◌==◌, ◌&&◌, ◌||◌,
  if◌then◌else◌, bytes_eq,
}
use shuli.Base.Outcome.{Outcome, ok, refuse_if, ◌>>=◌, ◌>>◌}
use shuli.Core.Types.{ErrorKind, handshake_failed}
use shuli.Wifi.Pmksa.{MicAlg}
use shuli.Wifi.Handshake4.Crypto.{Primitives, compute_mic, aes_key_unwrap}
use shuli.Wifi.Handshake4.State.{
  KeyFrame, KeyDataKdes, Frames, FourWayState, Step, keep, after, or_refused, or_panic,
  handshake_ptk, kck_of, kek_of, derive_ptk,
}

-- `==` of a field that may be missing with a value.
abbrev pub is_octets : Option (List ℕ) → List ℕ → Bool
is_octets none octets = false
is_octets (some own) octets = bytes_eq own octets

abbrev pub is_counter : Option ℕ → ℕ → Bool
is_counter none counter = false
is_counter (some own) counter = own == counter

-- `Ieee80211KeyDataKdes::default()`
abbrev pub no_kdes : KeyDataKdes
no_kdes = record { gtk = none; key_id = none; rsne = none; rsnxe = none }

unfoldable pub is_duplicate : List ℕ → ℕ → FourWayState → Bool
is_duplicate anonce counter s =
    is_counter s.pending_replay_counter counter && is_octets s.anonce anonce

-- The assignments of `process_message_1` before the PTK is staged.
unfoldable pub staged : List ℕ → List ℕ → ℕ → ℕ → FourWayState → FourWayState
staged snonce anonce counter desc_version s = record s {
  snonce = snonce;
  anonce = some anonce;
  pending_replay_counter = some counter;
  desc_version = desc_version;
}

unfoldable pub with_tptk : List ℕ → FourWayState → FourWayState
with_tptk ptk s = record s { tptk = some ptk }

-- `fill(&mut self.snonce).expect(..)`, where the Message 1 is new.
abbrev pub next_snonce : Bool → Option (List ℕ) → List ℕ → Outcome ErrorKind (List ℕ)
next_snonce true random snonce = ok snonce
next_snonce false random snonce = or_panic random

-- What an authentic Message 3 and an authentic group rekey set at once.
unfoldable pub accepted : ℕ → FourWayState → FourWayState
accepted counter s = record s {
  replay_counter = counter;
  replay_counter_set = true;
  pending_replay_counter = none;
}

unfoldable pub counted : ℕ → FourWayState → FourWayState
counted counter s = record s { replay_counter = counter; replay_counter_set = true }

unfoldable pub with_key_id : Option ℕ → FourWayState → FourWayState
with_key_id key_id s = record s { key_id = key_id }

unfoldable pub with_gtk : Option (ℕ × List ℕ) → FourWayState → FourWayState
with_gtk none s = s
with_gtk (some (idx, gtk)) s = record s { gtk_index = idx; gtk = some gtk }

-- `if let Some(tptk) = self.tptk.take()`
unfoldable pub promoted : FourWayState → FourWayState
promoted s = record s { ptk = handshake_ptk s; tptk = none }

-- The Key ID of an Extended Key ID handshake.
unfoldable pub choose_key_id : Bool → Option ℕ → Outcome ErrorKind (Option ℕ)
choose_key_id false key_id = ok none
choose_key_id true key_id = do
  id ← or_refused key_id
  refuse_if (ltb 1 id) handshake_failed
  ok (some id)

module _ (c : Primitives) (f : Frames) where
  -- The MIC of a PDU with a zeroed MIC, patched in.
  unfoldable pub sign : MicAlg → List ℕ → List ℕ → Outcome ErrorKind (List ℕ)
  sign mic_alg kck pdu = do
    mic ← compute_mic c mic_alg kck (f.pdu_with_zeroed_mic pdu)
    ok (f.set_mic pdu mic)

  unfoldable pub verify_mic : MicAlg → List ℕ → KeyFrame → Outcome ErrorKind (Unit {0})
  verify_mic mic_alg kck frame = do
    expected ← compute_mic c mic_alg kck (f.pdu_with_zeroed_mic frame.raw)
    refuse_if (not (bytes_eq expected frame.key_mic)) handshake_failed

  -- Message 2's key data: the RSNE, and the OCI where OCV is on.
  abbrev pub message_2_data : Bool → Option (List ℕ) → List ℕ → List ℕ
  message_2_data true (some oci) rsne = rsne ++ f.build_oci_kde oci
  message_2_data _ _ rsne = rsne

  unfoldable pub check_message_1 : List ℕ → ℕ → FourWayState → Outcome ErrorKind (Unit {0})
  check_message_1 anonce counter s = do
    refuse_if (s.replay_counter_set && leb counter s.replay_counter) handshake_failed
    refuse_if (is_counter s.pending_replay_counter counter && not (is_duplicate anonce counter s))
        handshake_failed
    ok tt

  unfoldable pub message_2 : ℕ → FourWayState → Outcome ErrorKind (List ℕ)
  message_2 counter s = do
    kck ← or_panic (kck_of (handshake_ptk s))
    sign s.mic_alg kck
        (f.build_message_2 s.snonce counter (message_2_data s.ocv s.oci s.rsne) s.desc_version)

  -- From the new state on.
  unfoldable pub answer_message_1 : ℕ → FourWayState → Step (List ℕ)
  answer_message_1 counter s = keep s (derive_ptk c s) λ ptk.
      keep (with_tptk ptk s) (message_2 counter (with_tptk ptk s)) λ pdu. (with_tptk ptk s, ok pdu)

  -- `random` is what `getrandom` gives for a new SNonce.
  unfoldable pub process_message_1 : Option (List ℕ) → List ℕ → ℕ → ℕ → FourWayState → Step (List ℕ)
  process_message_1 random anonce counter desc_version s =
      keep s (check_message_1 anonce counter s) λ _.
        keep s (next_snonce (is_duplicate anonce counter s) random s.snonce)
          λ snonce. answer_message_1 counter (staged snonce anonce counter desc_version s)

  -- `verify_oci` of wifi/crypto/ocv.rs.
  unfoldable pub verify_oci : List ℕ → ℕ → Outcome ErrorKind (Unit {0})
  verify_oci plain freq_mhz = do
    oci ← or_refused (f.parse_oci_kde plain)
    refuse_if (not (f.matches_freq oci freq_mhz)) handshake_failed

  unfoldable pub rsne_ok : FourWayState → List ℕ → Bool
  rsne_ok s rsne = elim s.ft_pmk_r1 [
    | some pmk_r1 ↦ f.rsne_match_ignore_pmkid rsne s.ap_rsne
    | none ↦ bytes_eq rsne s.ap_rsne
  ]

  unfoldable pub validate_ap_ies : KeyDataKdes → FourWayState → Outcome ErrorKind (Unit {0})
  validate_ap_ies kdes s =
      let compared = (do
        rsne ← or_refused kdes.rsne
        refuse_if (not (rsne_ok s rsne)) handshake_failed
        refuse_if (not (length s.ap_rsnxe == 0) && not (is_octets kdes.rsnxe s.ap_rsnxe))
            handshake_failed) in
      if length s.ap_rsne == 0 then ok tt else compared

  -- The key data, decrypted with the KEK of a PTK and checked for the OCI.
  unfoldable pub open_key_data :
      Option (List ℕ) → KeyFrame → FourWayState → Outcome ErrorKind KeyDataKdes
  open_key_data kek frame s = do
    key ← or_refused kek
    refuse_if (not frame.is_encrypted_data) handshake_failed
    plain ← aes_key_unwrap c key frame.key_data
    if s.ocv then verify_oci plain s.freq_mhz else ok tt
    ok (f.parse_key_data_kdes plain)

  unfoldable pub check_message_3 : KeyFrame → FourWayState → Outcome ErrorKind (List ℕ)
  check_message_3 frame s = do
    pending ← or_refused s.pending_replay_counter
    refuse_if
        (ltb frame.replay_counter pending
          || (s.replay_counter_set && leb frame.replay_counter s.replay_counter))
        handshake_failed
    refuse_if (not (is_octets s.anonce frame.key_nonce)) handshake_failed
    kck ← or_refused (kck_of (handshake_ptk s))
    verify_mic s.mic_alg kck frame
    ok kck

  -- The KDEs, with the Key ID and the GTK taken over on the way.
  unfoldable pub take_kdes : KeyDataKdes → FourWayState → Step KeyDataKdes
  take_kdes kdes s = keep s (choose_key_id s.ext_key_id kdes.key_id) λ key_id.
      keep (with_key_id key_id s) (validate_ap_ies kdes (with_key_id key_id s))
        λ _. (with_gtk kdes.gtk (with_key_id key_id s), ok kdes)

  unfoldable pub read_key_data : KeyFrame → FourWayState → Step KeyDataKdes
  read_key_data frame s =
      if length frame.key_data == 0
      then (s, ok no_kdes)
      else keep s (open_key_data (kek_of (handshake_ptk s)) frame s) λ kdes. take_kdes kdes s

  unfoldable pub message_4 : List ℕ → FourWayState → Outcome ErrorKind (List ℕ)
  message_4 kck s = sign s.mic_alg kck (f.build_message_4 s.snonce s.replay_counter s.desc_version)

  -- Behind the MIC.
  unfoldable pub answer_message_3 : List ℕ → KeyFrame → FourWayState → Step (List ℕ × KeyDataKdes)
  answer_message_3 kck frame s =
      after (read_key_data frame s)
        λ t kdes. keep (promoted t) (message_4 kck (promoted t)) λ pdu. (promoted t, ok (pdu, kdes))

  unfoldable pub process_message_3 : KeyFrame → FourWayState → Step (List ℕ × KeyDataKdes)
  process_message_3 frame s =
      keep s (check_message_3 frame s)
        λ kck. answer_message_3 kck frame (accepted frame.replay_counter s)

  unfoldable pub check_group_rekey : KeyFrame → FourWayState → Outcome ErrorKind (List ℕ)
  check_group_rekey frame s = do
    refuse_if (leb frame.replay_counter s.replay_counter) handshake_failed
    kck ← or_refused (kck_of s.ptk)
    verify_mic s.mic_alg kck frame
    ok kck

  unfoldable pub open_group_data : KeyFrame → FourWayState → Outcome ErrorKind KeyDataKdes
  open_group_data frame s = do
    refuse_if (length frame.key_data == 0) handshake_failed
    kdes ← open_key_data (kek_of s.ptk) frame s
    gtk ← or_refused kdes.gtk
    ok kdes

  unfoldable pub group_message_2 : List ℕ → KeyFrame → FourWayState → Outcome ErrorKind (List ℕ)
  group_message_2 kck frame s =
      sign s.mic_alg kck (f.build_group_message_2 s.replay_counter frame.key_rsc frame.desc_version)

  unfoldable pub answer_group_rekey : List ℕ → KeyFrame → FourWayState → Step (List ℕ × KeyDataKdes)
  answer_group_rekey kck frame s = keep s (open_group_data frame s) λ kdes.
      keep (with_gtk kdes.gtk s) (group_message_2 kck frame (with_gtk kdes.gtk s))
        λ pdu. (with_gtk kdes.gtk s, ok (pdu, kdes))

  unfoldable pub process_group_rekey : KeyFrame → FourWayState → Step (List ℕ × KeyDataKdes)
  process_group_rekey frame s =
      keep s (check_group_rekey frame s)
        λ kck. answer_group_rekey kck frame (counted frame.replay_counter s)
