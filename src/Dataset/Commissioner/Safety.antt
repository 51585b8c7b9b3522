-- ===== src/Dataset/Commissioner/Safety.antt =====
-- DecodeCommissionerDataset of src/library/commissioner_impl.cpp on any payload.
use ot_commissioner.Common.{
  ℕ, ◌≡◌, refl, arith, ◌⊎◌, inl, inr, List, some, Result, ok, err, bad_format, Yields, >>=-Yields,
  >>=-eq,
}
use ot_commissioner.Bytes.{decode}
use ot_commissioner.Bytes.Bounds.{decode-Yields}
use ot_commissioner.Tlv.Types
use ot_commissioner.Tlv.Length.{exactly, find_rule, mesh_cop_rules}
use ot_commissioner.Tlv.{TlvSet, mesh_cop, no_tlvs, get_tlv_set}
use ot_commissioner.Tlv.Parse.{IsTlvSet, get_tlv_set-Ends, no_tlvs-IsTlvSet}
use ot_commissioner.Dataset.{when_present}
use ot_commissioner.Dataset.Reading.{when_present-Yields, at_least, Ends-cases}
use ot_commissioner.Dataset.Commissioner.{
  CommissionerDataset, default_dataset, decode_commissioner_fields, decode_commissioner,
  read_session_id, read_border_agent_locator, read_steering_data, read_ae_steering_data,
  read_nmkp_steering_data, read_joiner_udp_port, read_ae_udp_port, read_nmkp_udp_port,
}

module _ (set : TlvSet) (inv : IsTlvSet mesh_cop set) where
  number-Yields :
      (type : ℕ) (read : List ℕ → CommissionerDataset → Result CommissionerDataset)
      (d : CommissionerDataset)
      → find_rule type mesh_cop_rules ≡ some (exactly 2)
      → ((value : List ℕ) → Yields (decode 2 value) → Yields (read value d))
      → Yields (when_present (set type) read d)
  number-Yields type read d e h = when_present-Yields (set type) read d (λ tlv found.
      h tlv.value (decode-Yields 2 tlv.value (at_least set inv type 2 2 (omega arith) e tlv found)))

  fields-Yields : (d : CommissionerDataset) → Yields (decode_commissioner_fields set d)
  unfolding decode_commissioner_fields find_rule mesh_cop_rules read_session_id
      read_border_agent_locator read_steering_data read_ae_steering_data read_nmkp_steering_data
      read_joiner_udp_port read_ae_udp_port read_nmkp_udp_port
  fields-Yields d =
      >>=-Yields _
        (number-Yields Types.commissioner_session_id read_session_id d refl
          (λ value y. >>=-Yields _ y (λ n. (_, refl))))
        (λ d.
          >>=-Yields _
            (number-Yields Types.border_agent_locator read_border_agent_locator d refl
              (λ value y. >>=-Yields _ y (λ n. (_, refl))))
            (λ d. >>=-Yields _ (when_present-Yields _ _ d (λ tlv e. (_, refl))) (λ d.
              >>=-Yields _ (when_present-Yields _ _ d (λ tlv e. (_, refl))) (λ d.
                >>=-Yields _ (when_present-Yields _ _ d (λ tlv e. (_, refl))) (λ d.
                  >>=-Yields _
                    (number-Yields Types.joiner_udp_port read_joiner_udp_port d refl
                      (λ value y. >>=-Yields _ y (λ n. (_, refl))))
                    (λ d.
                      >>=-Yields _
                        (number-Yields Types.ae_udp_port read_ae_udp_port d refl
                          (λ value y. >>=-Yields _ y (λ n. (_, refl))))
                        (λ d.
                          number-Yields Types.nmkp_udp_port read_nmkp_udp_port d refl
                            (λ value y. >>=-Yields _ y (λ n. (_, refl))))))))))

-- Whatever the payload, decoding a Commissioner Dataset ends with a dataset, and reads no TLV out of
-- its bounds, where the payload is a list of TLVs; where it is none, decoding ends with `bad_format`.
pub decode_commissioner_total :
    (payload : List ℕ)
    → ((set : TlvSet) × (get_tlv_set mesh_cop no_tlvs payload ≡ ok set)
        × Yields (decode_commissioner payload))
      ⊎ ((get_tlv_set mesh_cop no_tlvs payload ≡ err bad_format)
          × (decode_commissioner payload ≡ err bad_format))
unfolding decode_commissioner
decode_commissioner_total payload =
    elim (Ends-cases _ (get_tlv_set-Ends mesh_cop no_tlvs payload (no_tlvs-IsTlvSet mesh_cop))) [
      | inl (set, e, inv) ↦
          let (d, yields) = fields-Yields set inv default_dataset in
          inl (set, e, (d, >>=-eq _ e yields))
      | inr e ↦ inr (e, rw e refl)
    ]
