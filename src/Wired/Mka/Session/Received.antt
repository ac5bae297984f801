-- ===== src/Wired/Mka/Session/Received.antt =====
-- What a frame must carry for `handle_frame` of wired/mka.rs to change the session.
use shuli.Base.{
  ℕ, ◌≡◌, ◌⊎◌, refl, inl, inr, arith, true, false, not, Option, none, some, List, ◌++◌, ◌||◌, ltb,
  ◌==◌, length, ◌%◌, Bool-cases, bytes_eq, bytes_eq→eq,
}
use shuli.Base.Outcome.{Outcome, ok, err, panic, out_of_fuel, >>=-eq-ok}
use shuli.Base.Bytes.{byte, be16}
use shuli.Core.Types.{ErrorKind}
use shuli.Wired.Mka.Types.{MkaPdu, pae_group_addr}
use shuli.Wired.Mka.Kdf.{Primitives, Documented}
use shuli.Wired.Mka.Pdu.Frame.{parse}
use shuli.Wired.Mka.Pdu.Authentic.{parse-Authentic}
use shuli.Wired.Mka.Session.State.{DeviceOps, World, MkaSession}
use shuli.Wired.Mka.Session.Receive.{EapolFrame}
use shuli.Wired.Mka.Session.Handle.{handle_parsed, handle_frame}

-- The frame goes to the PAE group address, does not come from this participant, and its payload is
-- octets, their tag under the ICK and the addresses, and a trailer.
pub record IsAuthentic (c : Primitives) (mac ick : List ℕ) (frame : EapolFrame) : Type 0 where
  pub covered : List ℕ
  pub trailer : List ℕ
  pub tagged :
      frame.payload
      ≡ covered ++ (c.cmac ick (frame.dst ++ (frame.src ++ (be16 34958 ++ covered))) ++ trailer)
  pub group : frame.dst ≡ pae_group_addr
  pub other : bytes_eq frame.src mac ≡ false

module _ {D : Type 0} (ops : DeviceOps D) (c : Primitives) (w : World) where
  -- Only an MKPDU that is parsed changes the session.
  handle_parsed-eq-ok :
      (parsed : Outcome ErrorKind (Option MkaPdu)) (s t : MkaSession D)
      → handle_parsed ops c w parsed s ≡ ok t
      → (t ≡ s) ⊎ ((pdu : MkaPdu) × (parsed ≡ ok (some pdu)))
  unfolding handle_parsed
  handle_parsed-eq-ok (ok (some pdu)) s t handled = inr (pdu, refl)
  handle_parsed-eq-ok (ok none) s t handled = inl cc
  handle_parsed-eq-ok (err kind) s t handled = inl cc
  handle_parsed-eq-ok panic s t handled = cc
  handle_parsed-eq-ok out_of_fuel s t handled = cc

  module _ (d : Documented c) where
    -- An MKPDU that is parsed is authentic.
    parsed-IsAuthentic :
        (frame : EapolFrame) (s t : MkaSession D)
        → bytes_eq frame.dst pae_group_addr ≡ true
        → bytes_eq frame.src s.mac ≡ false
        → handle_parsed ops c w (parse c frame.payload frame.dst frame.src s.ick) s ≡ ok t
        → (t ≡ s) ⊎ IsAuthentic c s.mac s.ick frame
    parsed-IsAuthentic frame s t group other handled = elim (handle_parsed-eq-ok _ s t handled) [
      | inl same ↦ inl same
      | inr (pdu, parsed) ↦
          let (covered, trailer, tagged, _, _) =
            parse-Authentic c d frame.payload frame.dst frame.src s.ick pdu parsed in
          inr (record {
            covered = covered;
            trailer = trailer;
            tagged = tagged;
            group = bytes_eq→eq frame.dst pae_group_addr group;
            other = other;
          })
    ]

    -- Where the crate keeps what it documents, a frame changes the session only with a tag of the
    -- session's ICK over its addresses and octets, to the PAE group address, and from another
    -- station.
    pub handle_frame-IsAuthentic :
        (frame : EapolFrame) (s t : MkaSession D)
        → handle_frame ops c w frame s ≡ ok t
        → (t ≡ s) ⊎ IsAuthentic c s.mac s.ick frame
    unfolding handle_frame
    handle_frame-IsAuthentic frame s t handled = elim (Bool-cases (ltb (length frame.payload) 4)) [
      | inl short ↦ inl cc
      | inr four ↦
          let (kind, _, grouped) = >>=-eq-ok (byte frame.payload 1) _ (rw four at handled) in
          let (group, _, tested) = >>=-eq-ok (byte frame.src 0) _ grouped in
          elim (Bool-cases (kind == 5)) [
            | inr other_kind ↦ inl cc
            | inl mka ↦
                let refused = not (bytes_eq frame.dst pae_group_addr) || group % 2 == 1 in
                elim (Bool-cases refused) [
                  | inl not_group ↦ inl cc
                  | inr to_group ↦ elim (Bool-cases (bytes_eq frame.src s.mac)) [
                    | inl own ↦ inl cc
                    | inr other ↦
                        parsed-IsAuthentic frame s t (ground arith) other
                          (rw (mka, to_group, other) at tested)
                  ]
                ]
          ]
    ]
