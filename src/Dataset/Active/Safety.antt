-- ===== src/Dataset/Active/Safety.antt =====
-- DecodeActiveOperationalDataset of src/library/commissioner_impl.cpp on any payload.
use ot_commissioner.Common.{
  ℕ, ◌≤◌, ◌≡◌, refl, subst, arith, true, ◌⊎◌, inl, inr, List, [], ◌∷◌, length, some, Result,
  ErrorCode, ok, err, bad_format, Returns, returned, failed, Yields, >>=-Yields, >>=-eq,
  >>=-Returns,
}
use ot_commissioner.Bytes.Bounds.{decode-Yields}
use ot_commissioner.Tlv.Types
use ot_commissioner.Tlv.Length.{three_or_four, allows, find_rule, mesh_cop_rules}
use ot_commissioner.Tlv.{Tlv, TlvSet, mesh_cop, no_tlvs, get_tlv_set}
use ot_commissioner.Tlv.Parse.{IsTlvSet, Ends, get_tlv_set-Ends, no_tlvs-IsTlvSet}
use ot_commissioner.Dataset.Masks.{decode_channel_mask, decode_channel_mask-Returns}
use ot_commissioner.Dataset.Reading.{
  IsTlvSet-allows, when_present-Yields, when_present-Returns, at_least, Ends-cases,
}
use ot_commissioner.Dataset.{ActiveOperationalDataset, when_present}
use ot_commissioner.Dataset.Active.Fields.{
  read_active_timestamp, read_channel, read_channel_mask, read_extended_pan_id,
  read_mesh_local_prefix, read_network_master_key, read_network_name, read_pan_id, read_pskc,
  read_security_policy,
}
use ot_commissioner.Dataset.Active.{or_exit, decode_behind_mask, decode_fields, decode_active}

module _ (set : TlvSet) (inv : IsTlvSet mesh_cop set) where
  timestamp-Yields :
      (d : ActiveOperationalDataset)
      → Yields (when_present (set Types.active_timestamp) read_active_timestamp d)
  unfolding read_active_timestamp find_rule mesh_cop_rules
  timestamp-Yields d =
      when_present-Yields (set Types.active_timestamp) read_active_timestamp d (λ tlv found.
        >>=-Yields _
          (decode-Yields 8 tlv.value
            (at_least set inv Types.active_timestamp 8 8 (omega arith) refl tlv found))
          (λ n. (_, refl)))

  channel_value :
      (value : List ℕ) (d : ActiveOperationalDataset)
      → 3 ≤ length value
      → Yields (read_channel value d)
  unfolding read_channel
  channel_value [] d h = absurd (omega arith)
  channel_value (page ∷ rest) d h =
      >>=-Yields _ (decode-Yields 2 rest (omega arith)) (λ n. (_, refl))

  channel-Yields :
      (d : ActiveOperationalDataset) → Yields (when_present (set Types.channel) read_channel d)
  unfolding find_rule mesh_cop_rules
  channel-Yields d = when_present-Yields (set Types.channel) read_channel d (λ tlv found.
      channel_value tlv.value d (at_least set inv Types.channel 3 3 (omega arith) refl tlv found))

  pan_id-Yields :
      (d : ActiveOperationalDataset) → Yields (when_present (set Types.pan_id) read_pan_id d)
  unfolding read_pan_id find_rule mesh_cop_rules
  pan_id-Yields d = when_present-Yields (set Types.pan_id) read_pan_id d (λ tlv found.
      >>=-Yields _
        (decode-Yields 2 tlv.value (at_least set inv Types.pan_id 2 2 (omega arith) refl tlv found))
        (λ n. (_, refl)))

  policy_value : (value : List ℕ) → allows three_or_four (length value) ≡ true → 2 ≤ length value
  unfolding allows
  policy_value value h = ground arith

  security_policy-Yields :
      (d : ActiveOperationalDataset)
      → Yields (when_present (set Types.security_policy) read_security_policy d)
  unfolding read_security_policy find_rule mesh_cop_rules
  security_policy-Yields d =
      when_present-Yields (set Types.security_policy) read_security_policy d (λ tlv found.
        >>=-Yields _
          (decode-Yields 2 tlv.value (
            policy_value tlv.value
              (IsTlvSet-allows set Types.security_policy three_or_four inv refl tlv found)))
          (λ n. (_, refl)))

  decode_behind_mask-Yields : (d : ActiveOperationalDataset) → Yields (decode_behind_mask set d)
  unfolding decode_behind_mask read_extended_pan_id read_mesh_local_prefix read_network_master_key
      read_network_name read_pskc
  decode_behind_mask-Yields d = >>=-Yields _ (when_present-Yields _ _ d (λ tlv e. (_, refl))) (λ d.
      >>=-Yields _ (when_present-Yields _ _ d (λ tlv e. (_, refl))) (λ d.
        >>=-Yields _ (when_present-Yields _ _ d (λ tlv e. (_, refl))) (λ d.
          >>=-Yields _ (when_present-Yields _ _ d (λ tlv e. (_, refl))) (λ d.
            >>=-Yields _ (pan_id-Yields d) (λ d.
              >>=-Yields _ (when_present-Yields _ _ d (λ tlv e. (_, refl)))
                (λ d. security_policy-Yields d))))))

  or_exit-Yields :
      (out : ActiveOperationalDataset) (r : Result ActiveOperationalDataset)
      → Returns r
      → Yields (or_exit out r (decode_behind_mask set))
  unfolding or_exit
  or_exit-Yields out _ (returned d) = decode_behind_mask-Yields d
  or_exit-Yields out _ (failed e) = (out, refl)

  mask-Returns :
      (d : ActiveOperationalDataset)
      → Returns (when_present (set Types.channel_mask) read_channel_mask d)
  unfolding read_channel_mask
  mask-Returns d =
      when_present-Returns _ _ d
        (λ value. >>=-Returns (decode_channel_mask-Returns value) (λ mask e. returned _))

  pub decode_fields-Yields : (out d : ActiveOperationalDataset) → Yields (decode_fields out set d)
  unfolding decode_fields
  decode_fields-Yields out d =
      >>=-Yields _ (timestamp-Yields d)
        (λ d. >>=-Yields _ (channel-Yields d) (λ d. or_exit-Yields out _ (mask-Returns d)))

  bad_mask :
      (tlv : Tlv) (e : ErrorCode) (out d : ActiveOperationalDataset)
      → set Types.channel_mask ≡ some tlv
      → decode_channel_mask tlv.value ≡ err e
      → or_exit out
          (when_present (set Types.channel_mask) read_channel_mask d)
          (decode_behind_mask set)
        ≡ ok out
  unfolding or_exit when_present read_channel_mask
  bad_mask tlv e out d found bad = rw (found, bad) refl

  pub decode_fields_bad_mask :
      (tlv : Tlv) (e : ErrorCode) (out d : ActiveOperationalDataset)
      → set Types.channel_mask ≡ some tlv
      → decode_channel_mask tlv.value ≡ err e
      → decode_fields out set d ≡ ok out
  unfolding decode_fields
  decode_fields_bad_mask tlv e out d found bad = >>=-eq _ (timestamp-Yields d).1 (
      >>=-eq _ (channel-Yields (timestamp-Yields d).0).1
        (bad_mask tlv e out (channel-Yields (timestamp-Yields d).0).0 found bad))

-- Whatever the payload, decoding an active dataset ends with a dataset, and reads no TLV out of its
-- bounds, where the payload is a list of TLVs; where it is none, decoding ends with `bad_format`.
pub decode_active_total :
    (out fresh : ActiveOperationalDataset) (payload : List ℕ)
    → ((set : TlvSet) × (get_tlv_set mesh_cop no_tlvs payload ≡ ok set)
        × Yields (decode_active out fresh payload))
      ⊎ ((get_tlv_set mesh_cop no_tlvs payload ≡ err bad_format)
          × (decode_active out fresh payload ≡ err bad_format))
unfolding decode_active
decode_active_total out fresh payload =
    elim (Ends-cases (get_tlv_set mesh_cop no_tlvs payload)
      (get_tlv_set-Ends mesh_cop no_tlvs payload (no_tlvs-IsTlvSet mesh_cop))) [
        | inl (set, e, inv) ↦
            let (d, yields) =
              decode_fields-Yields set inv out (record fresh { present_flags = 0 }) in
            inl (set, e, (d, >>=-eq _ e yields))
        | inr e ↦ inr (e, rw e refl)
      ]

-- A channel mask that does not decode is no error to DecodeActiveOperationalDataset: it succeeds, and
-- the caller's dataset is what it was, whatever else the payload holds.
pub decode_active_bad_mask :
    (out fresh : ActiveOperationalDataset) (payload : List ℕ) (set : TlvSet) (tlv : Tlv)
    (e : ErrorCode)
    → get_tlv_set mesh_cop no_tlvs payload ≡ ok set
    → set Types.channel_mask ≡ some tlv
    → decode_channel_mask tlv.value ≡ err e
    → decode_active out fresh payload ≡ ok out
unfolding decode_active
decode_active_bad_mask out fresh payload set tlv e parsed found bad = >>=-eq _ parsed (
    decode_fields_bad_mask set
      (subst (Ends mesh_cop) parsed
        (get_tlv_set-Ends mesh_cop no_tlvs payload (no_tlvs-IsTlvSet mesh_cop)))
      tlv e out (record fresh { present_flags = 0 }) found bad)
