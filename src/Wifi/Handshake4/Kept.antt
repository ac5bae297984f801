-- ===== src/Wifi/Handshake4/Kept.antt =====
-- What a Message 3 can do to the keys: nothing, unless its MIC is one of the staged PTK.
use shuli.Base.{
  ℕ, ◌≡◌, refl, ap, ◌∙◌, arith, false, not, Option, none, some, List, length, ltb, leb, ◌==◌, ◌&&◌,
  ◌||◌, inl, inr, Bool-cases, bytes_eq, bytes_eq→eq, take,
}
use shuli.Base.Outcome.{
  Outcome, ok, err, panic, out_of_fuel, refuse_if, ◌>>=◌, ◌>>◌, >>=-eq-ok, refuse_if-eq-ok,
}
use shuli.Core.Types.{ErrorKind, handshake_failed}
use shuli.Wifi.Pmksa.{MicAlg, aes_cmac, hmac_sha256, hmac_sha1}
use shuli.Wifi.Handshake4.Crypto.{Primitives, compute_mic}
use shuli.Wifi.Handshake4.State.{
  KeyFrame, KeyDataKdes, Frames, FourWayState, Step, keep, after, or_refused, handshake_ptk, kck_of,
}
use shuli.Wifi.Handshake4.Messages.{
  is_octets, accepted, with_key_id, with_gtk, promoted, sign, verify_mic, check_message_3,
  take_kdes, read_key_data, message_4, answer_message_3, process_message_3,
}

-- The state that a failure leaves, and the state and the value of a success.
abbrev pub Settles :
    {A : Type 0} → (FourWayState → Type 0) → (FourWayState → A → Type 0) → Step A → Type 0
Settles P Q (s, ok a) = Q s a
Settles P Q (s, _) = P s

keep-Settles :
    {A B : Type 0} (P : FourWayState → Type 0) (Q : FourWayState → B → Type 0) (s : FourWayState)
    (m : Outcome ErrorKind A) (f : A → Step B)
    → P s
    → ((a : A) → m ≡ ok a → Settles P Q (f a))
    → Settles P Q (keep s m f)
unfolding keep
keep-Settles P Q s (ok a) f here h = h a refl
keep-Settles P Q s (err kind) f here h = here
keep-Settles P Q s panic f here h = here
keep-Settles P Q s out_of_fuel f here h = here

after-Settles :
    {A B : Type 0} (P : FourWayState → Type 0) (R : FourWayState → A → Type 0)
    (Q : FourWayState → B → Type 0) (step : Step A) (f : FourWayState → A → Step B)
    → Settles P R step
    → ((t : FourWayState) (a : A) → R t a → Settles P Q (f t a))
    → Settles P Q (after step f)
unfolding after keep
after-Settles P R Q (s, ok a) f here h = h s a here
after-Settles P R Q (s, err kind) f here h = here
after-Settles P R Q (s, panic) f here h = here
after-Settles P R Q (s, out_of_fuel) f here h = here

-- A key that gave one MIC gives every other.
compute_mic-again :
    (c : Primitives) (mic_alg : MicAlg) (kck octets others mic : List ℕ)
    → compute_mic c mic_alg kck octets ≡ ok mic
    → (other : List ℕ) × (compute_mic c mic_alg kck others ≡ ok other)
unfolding compute_mic
compute_mic-again c aes_cmac kck octets others mic e = elim (Bool-cases (length kck == 16)) [
  | inl long ↦ (c.cmac kck others, rw long refl)
  | inr other ↦ cc (rw other at e)
]
compute_mic-again c hmac_sha256 kck octets others mic e = (take 16 (c.hmac_sha256 kck others), refl)
compute_mic-again c hmac_sha1 kck octets others mic e = (take 16 (c.hmac_sha1 kck others), refl)

-- The keys in use, and the staged one, are those of before.
abbrev pub KeepsKeys : FourWayState → FourWayState → Type 0
KeepsKeys s t = (t.ptk ≡ s.ptk) × (t.tptk ≡ s.tptk)

-- The frame is newer than what was accepted, has the nonce of Message 1 and a MIC of the key of the
-- handshake; that key is the PTK now.
pub record Installs (c : Primitives) (f : Frames) (frame : KeyFrame) (s t : FourWayState)
    : Type 0 where
  pub kck : List ℕ
  pub key : kck_of (handshake_ptk s) ≡ some kck
  pub signed : compute_mic c s.mic_alg kck (f.pdu_with_zeroed_mic frame.raw) ≡ ok frame.key_mic
  pub newer : s.replay_counter_set && leb frame.replay_counter s.replay_counter ≡ false
  pub counted : t.replay_counter ≡ frame.replay_counter
  pub ptk : t.ptk ≡ handshake_ptk s
  pub tptk : t.tptk ≡ none

or_refused-ok : (o : Option (List ℕ)) (octets : List ℕ) → or_refused o ≡ ok octets → o ≡ some octets
or_refused-ok none octets e = cc
or_refused-ok (some own) octets e = cc

verified-parts :
    (m : Outcome ErrorKind (List ℕ)) (mic own kck : List ℕ)
    → ((m >>= λ expected. refuse_if (not (bytes_eq expected mic)) handshake_failed) >> ok own)
      ≡ ok kck
    → (m ≡ ok mic) × (own ≡ kck)
verified-parts (ok expected) mic own kck e = elim (Bool-cases (bytes_eq expected mic)) [
  | inl same ↦ (ap ok (bytes_eq→eq expected mic same), cc (rw same at e))
  | inr other ↦ cc (rw other at e)
]
verified-parts (err kind) mic own kck e = cc
verified-parts panic mic own kck e = cc
verified-parts out_of_fuel mic own kck e = cc

-- What reading the key data leaves as it is.
record Reads (s t : FourWayState) : Type 0 where
  ptk : t.ptk ≡ s.ptk
  tptk : t.tptk ≡ s.tptk
  counter : t.replay_counter ≡ s.replay_counter
  mic_alg : t.mic_alg ≡ s.mic_alg

module _ (c : Primitives) (f : Frames) where
  with_gtk-Reads :
      (gtk : Option (ℕ × List ℕ)) (key_id : Option ℕ) (s : FourWayState)
      → Reads s (with_gtk gtk (with_key_id key_id s))
  unfolding with_gtk with_key_id
  with_gtk-Reads none key_id s = record { ptk = refl; tptk = refl; counter = refl; mic_alg = refl }
  with_gtk-Reads (some gtk) key_id s = record {
    ptk = refl;
    tptk = refl;
    counter = refl;
    mic_alg = refl;
  }

  take_kdes-Settles :
      (kdes : KeyDataKdes) (s : FourWayState)
      → Settles (KeepsKeys s) (λ t _. Reads s t) (take_kdes c f kdes s)
  unfolding take_kdes with_key_id
  take_kdes-Settles kdes s =
      keep-Settles (KeepsKeys s) (λ t _. Reads s t) s _ _ (refl, refl)
        λ key_id _.
          keep-Settles (KeepsKeys s) (λ t _. Reads s t) (with_key_id key_id s) _ _ (refl, refl)
            λ _ _. with_gtk-Reads kdes.gtk key_id s

  read_key_data-Settles :
      (frame : KeyFrame) (s : FourWayState)
      → Settles (KeepsKeys s) (λ t _. Reads s t) (read_key_data c f frame s)
  unfolding read_key_data
  read_key_data-Settles frame s = elim (Bool-cases (length frame.key_data == 0)) [
    | inl empty ↦ rw empty (record { ptk = refl; tptk = refl; counter = refl; mic_alg = refl })
    | inr data_there ↦ rw data_there (
        keep-Settles (KeepsKeys s) (λ t _. Reads s t) s _ _ (refl, refl)
          λ kdes _. take_kdes-Settles kdes s)
  ]

  -- The parts of a check that succeeds.
  check_message_3-parts :
      (frame : KeyFrame) (s : FourWayState) (kck : List ℕ)
      → check_message_3 c f frame s ≡ ok kck
      → (kck_of (handshake_ptk s) ≡ some kck)
        × (compute_mic c s.mic_alg kck (f.pdu_with_zeroed_mic frame.raw) ≡ ok frame.key_mic)
        × (s.replay_counter_set && leb frame.replay_counter s.replay_counter ≡ false)
  unfolding check_message_3 verify_mic
  check_message_3-parts frame s kck checked =
      let (pending, _, counters) = >>=-eq-ok (or_refused s.pending_replay_counter) _ checked in
      let (newer, nonces) =
        refuse_if-eq-ok
          (ltb frame.replay_counter pending
            || (s.replay_counter_set && leb frame.replay_counter s.replay_counter))
          handshake_failed _ counters in
      let (_, keyed) =
        refuse_if-eq-ok (not (is_octets s.anonce frame.key_nonce)) handshake_failed _ nonces in
      let (own, is_own, verified) =
        >>=-eq-ok (or_refused (kck_of (handshake_ptk s)))
          (λ own. verify_mic c f s.mic_alg own frame >> ok own) keyed in
      let (signed, same) =
        verified-parts (compute_mic c s.mic_alg own (f.pdu_with_zeroed_mic frame.raw)) frame.key_mic
          own kck verified in
      (or_refused-ok _ own is_own ∙ ap some same, rw same at signed, ground (arith, newer))

  message_4-again :
      (frame : KeyFrame) (s t : FourWayState) (kck : List ℕ)
      → compute_mic c s.mic_alg kck (f.pdu_with_zeroed_mic frame.raw) ≡ ok frame.key_mic
      → t.mic_alg ≡ s.mic_alg
      → (pdu : List ℕ) × (message_4 c f kck t ≡ ok pdu)
  unfolding message_4 sign
  message_4-again frame s t kck signed same =
      let pdu = f.build_message_4 t.snonce t.replay_counter t.desc_version in
      let (mic, computed) =
        compute_mic-again c s.mic_alg kck _ (f.pdu_with_zeroed_mic pdu) frame.key_mic signed in
      (f.set_mic pdu mic, rw (same, computed) refl)

  -- A Message 3 that fails leaves the PTK and the staged one as they were. One that is taken is newer
  -- than what was accepted, has a MIC under the KCK of the PTK of the handshake, the staged one where
  -- there is one, and makes that PTK the one in use.
  pub process_message_3-Settles :
      (frame : KeyFrame) (s : FourWayState)
      → Settles (KeepsKeys s) (λ t _. Installs c f frame s t) (process_message_3 c f frame s)
  unfolding process_message_3 answer_message_3 accepted promoted handshake_ptk keep
  process_message_3-Settles frame s =
      keep-Settles (KeepsKeys s) (λ t _. Installs c f frame s t) s _ _ (refl, refl)
        λ kck checked.
          let (key, signed, newer) = check_message_3-parts frame s kck checked in
          after-Settles (KeepsKeys s) (λ t _. Reads (accepted frame.replay_counter s) t)
            (λ t _. Installs c f frame s t)
            (read_key_data c f frame (accepted frame.replay_counter s)) _
            (read_key_data-Settles frame (accepted frame.replay_counter s))
            λ t kdes read.
              let (pdu, built) = message_4-again frame s (promoted t) kck signed read.mic_alg in
              rw built (record {
                kck = kck;
                key = key;
                signed = signed;
                newer = newer;
                counted = read.counter;
                ptk = rw (read.tptk, read.ptk) refl;
                tptk = refl;
              })
