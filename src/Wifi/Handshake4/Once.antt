-- ===== src/Wifi/Handshake4/Once.antt =====
-- A frame is taken once: what a Message 3 or a group rekey installed is not installed again.
use shuli.Base.{
  ℕ, ◌≤◌, ◌≡◌, ◌⊎◌, refl, arith, true, false, Option, none, some, List, length, leb, ltb, ◌==◌,
  ◌&&◌, ◌||◌, inl, inr, Bool-cases, le→leb,
}
use shuli.Base.Outcome.{Outcome, ok, err, panic, out_of_fuel, >>=-eq-ok, refuse_if-eq-ok}
use shuli.Core.Types.{ErrorKind, handshake_failed}
use shuli.Wifi.Handshake4.Crypto.{Primitives}
use shuli.Wifi.Handshake4.State.{
  KeyFrame, KeyDataKdes, Frames, FourWayState, Step, keep, after, or_refused,
}
use shuli.Wifi.Handshake4.Messages.{
  staged, with_tptk, accepted, counted, with_key_id, with_gtk, promoted, answer_message_1,
  process_message_1, check_message_3, take_kdes, read_key_data, answer_message_3, process_message_3,
  check_group_rekey, answer_group_rekey, process_group_rekey,
}

-- The state that a method leaves, whatever its result.
keep-Holds :
    {A B : Type 0} (P : FourWayState → Type 0) (s : FourWayState) (m : Outcome ErrorKind A)
    (f : A → Step B)
    → P s
    → ((a : A) → m ≡ ok a → P (f a).0)
    → P (keep s m f).0
unfolding keep
keep-Holds P s (ok a) f here h = h a refl
keep-Holds P s (err kind) f here h = here
keep-Holds P s panic f here h = here
keep-Holds P s out_of_fuel f here h = here

after-Holds :
    {A B : Type 0} (P : FourWayState → Type 0) (step : Step A) (f : FourWayState → A → Step B)
    → P step.0
    → ((t : FourWayState) (a : A) → P t → P (f t a).0)
    → P (after step f).0
unfolding after keep
after-Holds P (s, ok a) f here h = h s a here
after-Holds P (s, err kind) f here h = here
after-Holds P (s, panic) f here h = here
after-Holds P (s, out_of_fuel) f here h = here

pub keep-eq-ok :
    {A B : Type 0} (s : FourWayState) (m : Outcome ErrorKind A) (f : A → Step B) {t : FourWayState}
    {b : B}
    → keep s m f ≡ (t, ok b)
    → (a : A) × (m ≡ ok a) × (f a ≡ (t, ok b))
unfolding keep
keep-eq-ok s (ok a) f e = (a, refl, e)
keep-eq-ok s (err kind) f e = cc
keep-eq-ok s panic f e = cc
keep-eq-ok s out_of_fuel f e = cc

-- A counter is set, and is at least `n`.
abbrev pub Passed : ℕ → FourWayState → Type 0
Passed n s = (s.replay_counter_set ≡ true) × (n ≤ s.replay_counter)

with_gtk-Passed :
    (n : ℕ) (gtk : Option (ℕ × List ℕ)) (s : FourWayState) → Passed n s → Passed n (with_gtk gtk s)
unfolding with_gtk
with_gtk-Passed n none s h = h
with_gtk-Passed n (some gtk) s h = h

module _ (c : Primitives) (f : Frames) where
  message_1-Passed :
      (n : ℕ) (random : Option (List ℕ)) (anonce : List ℕ) (counter desc_version : ℕ)
      (s : FourWayState)
      → Passed n s
      → Passed n (process_message_1 c f random anonce counter desc_version s).0
  unfolding process_message_1 answer_message_1 staged with_tptk
  message_1-Passed n random anonce counter desc_version s h = keep-Holds (Passed n) s _ _ h λ _ _.
      keep-Holds (Passed n) s _ _ h λ snonce _.
        keep-Holds (Passed n) (staged snonce anonce counter desc_version s) _ _ h λ ptk _.
          keep-Holds (Passed n) (with_tptk ptk (staged snonce anonce counter desc_version s)) _ _ h
            λ pdu _. h

  answer_message_3-Passed :
      (n : ℕ) (kck : List ℕ) (frame : KeyFrame) (s : FourWayState)
      → Passed n s
      → Passed n (answer_message_3 c f kck frame s).0
  unfolding answer_message_3 read_key_data take_kdes promoted with_key_id
  answer_message_3-Passed n kck frame s h =
      after-Holds (Passed n) (read_key_data c f frame s) _
        (elim (Bool-cases (length frame.key_data == 0)) [
          | inl empty ↦ rw empty h
          | inr data_there ↦ rw data_there (
              keep-Holds (Passed n) s _ _ h λ kdes _. keep-Holds (Passed n) s _ _ h λ key_id _.
                keep-Holds (Passed n) (with_key_id key_id s) _ _ h
                  λ _ _. with_gtk-Passed n kdes.gtk (with_key_id key_id s) h)
        ])
        λ t kdes after_data. keep-Holds (Passed n) (promoted t) _ _ after_data λ pdu _. after_data

  answer_group_rekey-Passed :
      (n : ℕ) (kck : List ℕ) (frame : KeyFrame) (s : FourWayState)
      → Passed n s
      → Passed n (answer_group_rekey c f kck frame s).0
  unfolding answer_group_rekey
  answer_group_rekey-Passed n kck frame s h = keep-Holds (Passed n) s _ _ h λ kdes _.
      keep-Holds (Passed n) (with_gtk kdes.gtk s) _ _ (with_gtk-Passed n kdes.gtk s h)
        λ pdu _. with_gtk-Passed n kdes.gtk s h

  -- A frame that passes the checks is newer than what was accepted.
  check_message_3-newer :
      (frame : KeyFrame) (s : FourWayState) (kck : List ℕ)
      → check_message_3 c f frame s ≡ ok kck
      → s.replay_counter_set && leb frame.replay_counter s.replay_counter ≡ false
  unfolding check_message_3
  check_message_3-newer frame s kck checked =
      let (pending, _, counters) = >>=-eq-ok (or_refused s.pending_replay_counter) _ checked in
      let (newer, _) =
        refuse_if-eq-ok
          (ltb frame.replay_counter pending
            || (s.replay_counter_set && leb frame.replay_counter s.replay_counter))
          handshake_failed _ counters in
      ground (arith, newer)

  check_group_rekey-newer :
      (frame : KeyFrame) (s : FourWayState) (kck : List ℕ)
      → check_group_rekey c f frame s ≡ ok kck
      → leb frame.replay_counter s.replay_counter ≡ false
  unfolding check_group_rekey
  check_group_rekey-newer frame s kck checked =
      let (newer, _) =
        refuse_if-eq-ok (leb frame.replay_counter s.replay_counter) handshake_failed _ checked in
      newer

  message_3-Passed :
      (n : ℕ) (frame : KeyFrame) (s : FourWayState)
      → Passed n s
      → Passed n (process_message_3 c f frame s).0
  unfolding process_message_3 accepted
  message_3-Passed n frame s (set, above) =
      keep-Holds (Passed n) s _ _ (set, above)
        λ kck checked.
          let newer = check_message_3-newer frame s kck checked in
          answer_message_3-Passed n kck frame (accepted frame.replay_counter s)
            (refl, ground (arith, set, above, newer))

  group_rekey-Passed :
      (n : ℕ) (frame : KeyFrame) (s : FourWayState)
      → Passed n s
      → Passed n (process_group_rekey c f frame s).0
  unfolding process_group_rekey counted
  group_rekey-Passed n frame s (set, above) =
      keep-Holds (Passed n) s _ _ (set, above)
        λ kck checked.
          let newer = check_group_rekey-newer frame s kck checked in
          answer_group_rekey-Passed n kck frame (counted frame.replay_counter s)
            (refl, ground (arith, above, newer))

  -- The states that any further messages lead to, taken or refused.
  pub data Later (s : FourWayState) : FourWayState → Type 0 where
    now : Later s s
    then_message_1 :
        (random : Option (List ℕ)) (anonce : List ℕ) (counter desc_version : ℕ) {t : FourWayState}
        → Later s t
        → Later s (process_message_1 c f random anonce counter desc_version t).0
    then_message_3 :
        (frame : KeyFrame) {t : FourWayState}
        → Later s t
        → Later s (process_message_3 c f frame t).0
    then_group_rekey :
        (frame : KeyFrame) {t : FourWayState}
        → Later s t
        → Later s (process_group_rekey c f frame t).0

  Later-Passed : (n : ℕ) (s t : FourWayState) → Passed n s → Later s t → Passed n t
  Later-Passed n s t h now = h
  Later-Passed n s _ h (then_message_1 random anonce counter desc_version {t} later) =
      message_1-Passed n random anonce counter desc_version t (Later-Passed n s t h later)
  Later-Passed n s _ h (then_message_3 frame {t} later) =
      message_3-Passed n frame t (Later-Passed n s t h later)
  Later-Passed n s _ h (then_group_rekey frame {t} later) =
      group_rekey-Passed n frame t (Later-Passed n s t h later)

  -- A frame with a counter that was passed is refused, and changes nothing.
  Passed-refused :
      (frame : KeyFrame) (s : FourWayState)
      → Passed frame.replay_counter s
      → (process_message_3 c f frame s ≡ (s, err handshake_failed))
        × (process_group_rekey c f frame s ≡ (s, err handshake_failed))
  unfolding process_message_3 process_group_rekey check_message_3 check_group_rekey keep
  Passed-refused frame s (set, above) =
      let old = le→leb frame.replay_counter s.replay_counter above in
      (ground (arith, set, old), ground (arith, old))

  -- A frame that a Message 3 or a group rekey was taken from is refused in either role after any
  -- further messages, and nothing changes: its keys are not installed again.
  pub taken-once :
      (frame : KeyFrame) (s t u : FourWayState) (r : List ℕ × KeyDataKdes)
      → (process_message_3 c f frame s ≡ (t, ok r)) ⊎ (process_group_rekey c f frame s ≡ (t, ok r))
      → Later t u
      → (process_message_3 c f frame u ≡ (u, err handshake_failed))
        × (process_group_rekey c f frame u ≡ (u, err handshake_failed))
  unfolding process_message_3 process_group_rekey accepted counted
  taken-once frame s t u r taken later = elim taken [
    | inl message_3 ↦
        let (kck, _, answered) = keep-eq-ok s (check_message_3 c f frame s) _ message_3 in
        let passed =
          answer_message_3-Passed frame.replay_counter kck frame (accepted frame.replay_counter s)
            (refl, omega arith) in
        Passed-refused frame u (Later-Passed frame.replay_counter t u (rw answered at passed) later)
    | inr group ↦
        let (kck, _, answered) = keep-eq-ok s (check_group_rekey c f frame s) _ group in
        let passed =
          answer_group_rekey-Passed frame.replay_counter kck frame (counted frame.replay_counter s)
            (refl, omega arith) in
        Passed-refused frame u (Later-Passed frame.replay_counter t u (rw answered at passed) later)
  ]
