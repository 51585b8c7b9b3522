-- ===== src/Relay/Messages.antt =====
-- Reading RLY_RX in src/library/commissioner_impl.cpp, and RLY_TX of src/library/joiner_session.cpp.
use ot_commissioner.Common.{
  ℕ, ◌≤◌, refl, arith, List, [], ◌∷◌, length, Option, Result, ok, err, died, ErrorCode, Returns,
  returned, failed, >>=-Returns, Yields, inl, inr,
}
use ot_commissioner.Bytes.Bounds.{decode-Yields}
use ot_commissioner.Tlv.Types
use ot_commissioner.Tlv.Length.{find_rule, mesh_cop_rules}
use ot_commissioner.Tlv.{TlvSet, mesh_cop, no_tlvs}
use ot_commissioner.Tlv.Parse.{IsTlvSet, get_tlv_set-Ends, no_tlvs-IsTlvSet}
use ot_commissioner.Dataset.Reading.{at_least, Ends-cases}
use ot_commissioner.Commissioner.Responses.{required-Returns, required-some, Yields-Returns}
use ot_commissioner.Relay.{
  DtlsState, Relay, RlyRx, flip_local, read_fields, read_rly_rx, after_read, handle_rly_rx,
}

flip_local-Yields : (id : List ℕ) → 1 ≤ length id → Yields (flip_local id)
unfolding flip_local
flip_local-Yields [] le = absurd (omega arith)
flip_local-Yields (b ∷ id) le = (_, refl)

module _ (set : TlvSet) (inv : IsTlvSet mesh_cop set) where
  read_fields-Returns : Returns (read_fields set)
  unfolding read_fields find_rule mesh_cop_rules
  read_fields-Returns = >>=-Returns (required-Returns (set Types.joiner_udp_port)) (λ port e1.
      >>=-Returns
        (Yields-Returns (
          decode-Yields 2 port.value (
            at_least set inv Types.joiner_udp_port 2 2 (omega arith) refl port
              (required-some _ port e1))))
        (λ p f1. >>=-Returns (required-Returns (set Types.joiner_router_locator)) (λ locator e2.
          >>=-Returns
            (Yields-Returns (
              decode-Yields 2 locator.value (
                at_least set inv Types.joiner_router_locator 2 2 (omega arith) refl locator
                  (required-some _ locator e2))))
            (λ l f2. >>=-Returns (required-Returns (set Types.joiner_iid)) (λ iid e3.
              >>=-Returns (required-Returns (set Types.joiner_dtls_encapsulation)) (λ dtls e4.
                >>=-Returns
                  (Yields-Returns (
                    flip_local-Yields iid.value (
                      at_least set inv Types.joiner_iid 1 8 (omega arith) refl iid
                        (required-some _ iid e3))))
                  (λ id f3. returned _)))))))

read_rly_rx-Returns : (payload : List ℕ) → Returns (read_rly_rx payload)
unfolding read_rly_rx
read_rly_rx-Returns payload =
    elim (Ends-cases _ (get_tlv_set-Ends mesh_cop no_tlvs payload (no_tlvs-IsTlvSet mesh_cop))) [
      | inl (set, e, inv) ↦ rw e (read_fields-Returns set inv)
      | inr e ↦ rw e (failed _)
    ]

module _ (ask : List ℕ → List ℕ) (now : ℕ) (state : DtlsState) (local_addr : Option ErrorCode)
    (relay : Relay) where
  after_read-Yields :
      (read : Result RlyRx) → Returns read → Yields (after_read ask now state local_addr relay read)
  unfolding after_read
  after_read-Yields (ok rx) (returned a) = (_, refl)
  after_read-Yields (err e) (failed f) = (_, refl)
  after_read-Yields died x' = elim x' [ ]

  -- A RLY_RX message is handled to its end, whatever its payload and the state: no TLV is read out of
  -- its bounds, the id of the joiner among them.
  pub handle_rly_rx-Yields :
      (payload : List ℕ) → Yields (handle_rly_rx ask now state local_addr payload relay)
  unfolding handle_rly_rx
  handle_rly_rx-Yields payload =
      after_read-Yields (read_rly_rx payload) (read_rly_rx-Returns payload)
