-- ===== src/Dataset/Active/RoundTrip.antt =====
-- EncodeActiveOperationalDataset and then DecodeActiveOperationalDataset of
-- src/library/commissioner_impl.cpp.
use ot_commissioner.Common.{ℕ, ◌≡◌, refl, ◌∙◌, ap, List, [], Result, ok, >>=-eq}
use ot_commissioner.Tlv.Types
use ot_commissioner.Tlv.{TlvSet, no_tlvs}
use ot_commissioner.Dataset.Rows.{HoldsAll, found-eq, insert_rows, get_tlv_set-append_rows}
use ot_commissioner.Dataset.{ActiveOperationalDataset}
use ot_commissioner.Dataset.Active.Fields.{
  active_timestamp_bit, channel_bit, channel_mask_bit, extended_pan_id_bit, mesh_local_prefix_bit,
  network_master_key_bit, network_name_bit, pan_id_bit, pskc_bit, security_policy_bit,
  read_active_timestamp, read_channel, read_channel_mask, read_extended_pan_id,
  read_mesh_local_prefix, read_network_master_key, read_network_name, read_pan_id, read_pskc,
  read_security_policy,
}
use ot_commissioner.Dataset.Flags.{copy_flag, kept_flags}
use ot_commissioner.Dataset.Active.Steps.{
  active_timestamp_step, channel_step, channel_mask_step, extended_pan_id_step,
  mesh_local_prefix_step, network_master_key_step, network_name_step, pan_id_step, pskc_step,
  security_policy_step,
}
use ot_commissioner.Dataset.Active.Encode.{
  has, IsActive, overlay, active_rows, encode_active-rows, rows-IsRow,
}
use ot_commissioner.Dataset.Active.{
  encode_active, or_exit, decode_behind_mask, decode_fields, decode_active,
}

or_exit-eq :
    {D : Type 0} (out : D) {r : Result D} (rest : D → Result D) {d : D} {x : Result D}
    → r ≡ ok d
    → rest d ≡ x
    → or_exit out r rest ≡ x
unfolding or_exit
or_exit-eq out rest e h = ap (λ r. or_exit out r rest) e ∙ h

pub decode_fields-overlay :
    (set : TlvSet) (out fresh d : ActiveOperationalDataset)
    → IsActive d
    → HoldsAll set (active_rows d)
    → decode_fields out set (record fresh { present_flags = 0 }) ≡ ok (overlay fresh d)
unfolding decode_fields decode_behind_mask active_rows overlay copy_flag
decode_fields-overlay set out fresh d
      (flags, timestamp, channel, mask, ext, prefix, key, name, pan, pskc, policy)
      (s1, (s2, (s3, (s4, (s5, (s6, (s7, (s8, (s9, (s10, end)))))))))) =
    >>=-eq _
      (found-eq set Types.active_timestamp read_active_timestamp _ s1
        (active_timestamp_step (has d active_timestamp_bit) d.active_timestamp _ timestamp))
      (>>=-eq _
        (found-eq set Types.channel read_channel _ s2
          (channel_step (has d channel_bit) d.channel _ channel))
        (or_exit-eq out _
          (found-eq set Types.channel_mask read_channel_mask _ s3
            (channel_mask_step (has d channel_mask_bit) d.channel_mask _))
          (>>=-eq _
            (found-eq set Types.extended_pan_id read_extended_pan_id _ s4
              (extended_pan_id_step (has d extended_pan_id_bit) d.extended_pan_id _))
            (>>=-eq _
              (found-eq set Types.network_mesh_local_prefix read_mesh_local_prefix _ s5
                (mesh_local_prefix_step (has d mesh_local_prefix_bit) d.mesh_local_prefix _))
              (>>=-eq _
                (found-eq set Types.network_master_key read_network_master_key _ s6
                  (network_master_key_step (has d network_master_key_bit) d.network_master_key _))
                (>>=-eq _
                  (found-eq set Types.network_name read_network_name _ s7
                    (network_name_step (has d network_name_bit) d.network_name _))
                  (>>=-eq _
                    (found-eq set Types.pan_id read_pan_id _ s8
                      (pan_id_step (has d pan_id_bit) d.pan_id _ pan))
                    (>>=-eq _
                      (found-eq set Types.pskc read_pskc _ s9 (pskc_step (has d pskc_bit) d.pskc _))
                      (found-eq set Types.security_policy read_security_policy _ s10 (
                          security_policy_step (has d security_policy_bit) d.security_policy _
                            (λ h. (policy h).0))
                        ∙ ap (λ (f : ℕ). ok (record (overlay fresh d) { present_flags = f }))
                            (kept_flags d.present_flags flags))))))))))

-- An active dataset whose fields fit is encoded, and what is written decodes to its fields; those that
-- are not present are as the constructor left them, and no flag is set but those of the fields.
pub decode_active-encode_active :
    (out fresh d : ActiveOperationalDataset)
    → IsActive d
    → (payload : List ℕ) × (encode_active [] d ≡ ok payload)
      × (decode_active out fresh payload ≡ ok (overlay fresh d))
unfolding decode_active
decode_active-encode_active out fresh d h =
    let (payload, written, parsed) = get_tlv_set-append_rows (active_rows d) (rows-IsRow d h) in
    (
      payload,
      encode_active-rows [] d (λ e. (h.3 e).0) ∙ written,
      >>=-eq _ parsed (
          decode_fields-overlay (insert_rows no_tlvs (active_rows d)) out fresh d h (
            unfold active_rows insert_rows no_tlvs in
            (refl, (refl, (refl, (refl, (refl, (refl, (refl, (refl, (refl, (refl, tt)))))))))))),
    )
