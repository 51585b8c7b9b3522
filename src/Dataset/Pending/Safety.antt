-- ===== src/Dataset/Pending/Safety.antt =====
-- DecodePendingOperationalDataset of src/library/commissioner_impl.cpp on any payload.
use ot_commissioner.Common.{
  ℕ, ◌≡◌, refl, arith, ◌⊎◌, inl, inr, List, ok, err, bad_format, Yields, >>=-Yields, >>=-eq,
}
use ot_commissioner.Bytes.Bounds.{decode-Yields}
use ot_commissioner.Tlv.Types
use ot_commissioner.Tlv.Length.{find_rule, mesh_cop_rules}
use ot_commissioner.Tlv.{TlvSet, mesh_cop, no_tlvs, get_tlv_set}
use ot_commissioner.Tlv.Parse.{IsTlvSet, get_tlv_set-Ends, no_tlvs-IsTlvSet}
use ot_commissioner.Dataset.{ActiveOperationalDataset, PendingOperationalDataset}
use ot_commissioner.Dataset.Reading.{when_present-Yields, at_least, Ends-cases}
use ot_commissioner.Dataset.Active.{decode_active}
use ot_commissioner.Dataset.Active.Safety.{decode_fields-Yields}
use ot_commissioner.Dataset.Pending.{
  read_delay_timer, read_pending_timestamp, decode_pending_fields, decode_pending,
}

module _ (set : TlvSet) (inv : IsTlvSet mesh_cop set) where
  pending_fields-Yields : (d : PendingOperationalDataset) → Yields (decode_pending_fields set d)
  unfolding decode_pending_fields read_delay_timer read_pending_timestamp find_rule mesh_cop_rules
  pending_fields-Yields d =
      >>=-Yields _
        (when_present-Yields (set Types.delay_timer) read_delay_timer d (λ tlv found.
          >>=-Yields _
            (decode-Yields 4 tlv.value
              (at_least set inv Types.delay_timer 4 4 (omega arith) refl tlv found))
            (λ n. (_, refl))))
        (λ d.
          when_present-Yields (set Types.pending_timestamp) read_pending_timestamp d (λ tlv found.
            >>=-Yields _
              (decode-Yields 8 tlv.value
                (at_least set inv Types.pending_timestamp 8 8 (omega arith) refl tlv found))
              (λ n. (_, refl))))

-- Whatever the payload, decoding a pending dataset ends with a dataset, and reads no TLV out of its
-- bounds, where the payload is a list of TLVs; where it is none, decoding ends with `bad_format`.
pub decode_pending_total :
    (fresh : PendingOperationalDataset) (local : ActiveOperationalDataset) (payload : List ℕ)
    → ((set : TlvSet) × (get_tlv_set mesh_cop no_tlvs payload ≡ ok set)
        × Yields (decode_pending fresh local payload))
      ⊎ ((get_tlv_set mesh_cop no_tlvs payload ≡ err bad_format)
          × (decode_pending fresh local payload ≡ err bad_format))
unfolding decode_pending decode_active
decode_pending_total fresh local payload =
    elim (Ends-cases _ (get_tlv_set-Ends mesh_cop no_tlvs payload (no_tlvs-IsTlvSet mesh_cop))) [
      | inl (set, e, inv) ↦
          let (active, first) =
            decode_fields-Yields set inv (record fresh.active { present_flags = 0 })
              (record local { present_flags = 0 }) in
          let (d, second) = pending_fields-Yields set inv (record fresh { active = active }) in
          inl (set, e, (d, >>=-eq _ (>>=-eq _ e first) (>>=-eq _ e second)))
      | inr e ↦ inr (e, rw e refl)
    ]
