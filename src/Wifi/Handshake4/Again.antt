-- ===== src/Wifi/Handshake4/Again.antt =====
-- A Message 1 that the access point sends again is answered as before.
use shuli.Base.{
  ℕ, ◌≡◌, refl, sym, ap, ◌∙◌, true, false, not, Option, List, leb, ◌==◌, ==_refl, ◌&&◌,
  bytes_eq_refl,
}
use shuli.Base.Outcome.{ok, refuse_if-eq-ok}
use shuli.Core.Types.{handshake_failed}
use shuli.Wifi.Handshake4.Crypto.{Primitives}
use shuli.Wifi.Handshake4.State.{Frames, FourWayState, keep, derive_ptk}
use shuli.Wifi.Handshake4.Messages.{
  is_duplicate, staged, with_tptk, check_message_1, message_2, answer_message_1, process_message_1,
}
use shuli.Wifi.Handshake4.Once.{keep-eq-ok}

module _ (c : Primitives) (f : Frames) where
  -- The staged PTK does not go into the next one.
  derive_ptk-with_tptk :
      (ptk : List ℕ) (s : FourWayState) → derive_ptk c (with_tptk ptk s) ≡ derive_ptk c s
  unfolding derive_ptk with_tptk
  derive_ptk-with_tptk ptk s = refl

  is_duplicate-staged :
      (ptk snonce anonce : List ℕ) (counter desc_version : ℕ) (s : FourWayState)
      → is_duplicate anonce counter (with_tptk ptk (staged snonce anonce counter desc_version s))
        ≡ true
  unfolding is_duplicate with_tptk staged
  is_duplicate-staged ptk snonce anonce counter desc_version s =
      rw (==_refl counter, bytes_eq_refl anonce) refl

  check_message_1-staged :
      (ptk snonce anonce : List ℕ) (counter desc_version : ℕ) (s : FourWayState)
      → check_message_1 c f anonce counter s ≡ ok tt
      → check_message_1 c f anonce counter
          (with_tptk ptk (staged snonce anonce counter desc_version s))
        ≡ ok tt
  unfolding check_message_1 with_tptk staged
  check_message_1-staged ptk snonce anonce counter desc_version s checked =
      let (newer, _) =
        refuse_if-eq-ok (s.replay_counter_set && leb counter s.replay_counter) handshake_failed _
          checked in
      let same = is_duplicate-staged ptk snonce anonce counter desc_version s in
      let other : (counter == counter) && not true ≡ false = rw (==_refl counter) refl in
      rw (newer, same, other) refl

  answered-again :
      (random : Option (List ℕ)) (anonce snonce ptk pdu : List ℕ) (counter desc_version : ℕ)
      (s : FourWayState)
      → check_message_1 c f anonce counter s ≡ ok tt
      → derive_ptk c (staged snonce anonce counter desc_version s) ≡ ok ptk
      → message_2 c f counter (with_tptk ptk (staged snonce anonce counter desc_version s)) ≡ ok pdu
      → process_message_1 c f random anonce counter desc_version
          (with_tptk ptk (staged snonce anonce counter desc_version s))
        ≡ (with_tptk ptk (staged snonce anonce counter desc_version s), ok pdu)
  unfolding process_message_1 answer_message_1 keep staged with_tptk
  answered-again random anonce snonce ptk pdu counter desc_version s checked derived signed =
      let fresh = staged snonce anonce counter desc_version s in
      let again = derive_ptk-with_tptk ptk fresh ∙ derived in
      rw
        (
          check_message_1-staged ptk snonce anonce counter desc_version s checked,
          is_duplicate-staged ptk snonce anonce counter desc_version s,
          again,
          signed,
        )
        refl

  -- Where a Message 1 was answered, the answer to the same Message 1 is the same PDU, with the same
  -- nonce and PTK, and the state stays, whatever the random source gives.
  pub process_message_1-again :
      (random random2 : Option (List ℕ)) (anonce : List ℕ) (counter desc_version : ℕ)
      (s t : FourWayState) (pdu : List ℕ)
      → process_message_1 c f random anonce counter desc_version s ≡ (t, ok pdu)
      → process_message_1 c f random2 anonce counter desc_version t ≡ (t, ok pdu)
  unfolding process_message_1 answer_message_1
  process_message_1-again random random2 anonce counter desc_version s t pdu answered =
      let (_, checked, drawn) = keep-eq-ok s (check_message_1 c f anonce counter s) _ answered in
      let (snonce, _, staged_one) = keep-eq-ok s _ _ drawn in
      let fresh = staged snonce anonce counter desc_version s in
      let (ptk, derived, keyed) = keep-eq-ok fresh (derive_ptk c fresh) _ staged_one in
      let (built, signed, done) = keep-eq-ok (with_tptk ptk fresh) _ _ keyed in
      let again =
        answered-again random2 anonce snonce ptk built counter desc_version s checked derived
          signed in
      ap (λ step. process_message_1 c f random2 anonce counter desc_version step.0) (sym done)
      ∙ (again ∙ done)
