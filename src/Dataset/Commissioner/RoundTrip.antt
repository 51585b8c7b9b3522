-- ===== src/Dataset/Commissioner/RoundTrip.antt =====
-- EncodeCommissionerDataset and then DecodeCommissionerDataset of src/library/commissioner_impl.cpp.
use ot_commissioner.Common.{
  ℕ, ◌*◌, ◌/◌, ◌^◌, ◌<◌, ◌≤◌, ◌≡◌, refl, ◌∙◌, ap, arith, Bool, true, List, [], ◌∷◌, length, All, ok,
  >>=-eq, has_flag, if◌then◌else◌,
}
use ot_commissioner.Bytes.{encode}
use ot_commissioner.Tlv.Types
use ot_commissioner.Tlv.Length.{exactly, at_most, allows, find_rule, mesh_cop_rules}
use ot_commissioner.Tlv.{TlvSet, no_tlvs}
use ot_commissioner.Dataset.Rows.{
  Row, IsRow, append_rows, append_chain, append_chain-append_rows, insert_rows,
  get_tlv_set-append_rows, row-is_valid, HoldsAll, found-eq,
}
use ot_commissioner.Dataset.{append_present}
use ot_commissioner.Dataset.Flags.{
  copy_flag, copy_second, copy_first, copy_8192, copy_4096, copy_2048, copy_1024, copy_512,
  copy_256,
}
use ot_commissioner.Dataset.Commissioner.Steps.{
  session_id_step, border_agent_locator_step, steering_data_step, ae_steering_data_step,
  nmkp_steering_data_step, joiner_udp_port_step, ae_udp_port_step, nmkp_udp_port_step,
}
use ot_commissioner.Dataset.Commissioner.{
  CommissionerDataset, default_dataset, decode_commissioner_fields, decode_commissioner,
  encode_commissioner, session_id_bit, border_agent_locator_bit, steering_data_bit,
  ae_steering_data_bit, nmkp_steering_data_bit, joiner_udp_port_bit, ae_udp_port_bit,
  nmkp_udp_port_bit, read_session_id, read_border_agent_locator, read_steering_data,
  read_ae_steering_data, read_nmkp_steering_data, read_joiner_udp_port, read_ae_udp_port,
  read_nmkp_udp_port,
}

abbrev has : CommissionerDataset → ℕ → Bool
has d mask = has_flag d.present_flags mask

-- The flags are a word of 16 bits, and each field that is present fits its TLV.
abbrev pub IsCommissioner : CommissionerDataset → Type 0
IsCommissioner d =
    (d.present_flags < 2 ^ 16)
    × (has d session_id_bit ≡ true → d.session_id < 2 ^ 16)
    × (has d border_agent_locator_bit ≡ true → d.border_agent_locator < 2 ^ 16)
    × (has d steering_data_bit ≡ true → length d.steering_data ≤ 16)
    × (has d ae_steering_data_bit ≡ true → length d.ae_steering_data ≤ 16)
    × (has d nmkp_steering_data_bit ≡ true → length d.nmkp_steering_data ≤ 16)
    × (has d joiner_udp_port_bit ≡ true → d.joiner_udp_port < 2 ^ 16)
    × (has d ae_udp_port_bit ≡ true → d.ae_udp_port < 2 ^ 16)
    × (has d nmkp_udp_port_bit ≡ true → d.nmkp_udp_port < 2 ^ 16)

-- The fields that are present, and the defaults elsewhere; of the flags, those of the eight fields.
unfoldable pub present_fields : CommissionerDataset → CommissionerDataset
present_fields d = record {
  session_id = if has d session_id_bit then d.session_id else 0;
  border_agent_locator = if has d border_agent_locator_bit then d.border_agent_locator else 0;
  steering_data = if has d steering_data_bit then d.steering_data else [];
  ae_steering_data = if has d ae_steering_data_bit then d.ae_steering_data else [];
  nmkp_steering_data = if has d nmkp_steering_data_bit then d.nmkp_steering_data else [];
  joiner_udp_port = if has d joiner_udp_port_bit then d.joiner_udp_port else 0;
  ae_udp_port = if has d ae_udp_port_bit then d.ae_udp_port else 0;
  nmkp_udp_port = if has d nmkp_udp_port_bit then d.nmkp_udp_port else 0;
  present_flags = d.present_flags / 256 * 256;
}

unfoldable pub commissioner_rows : CommissionerDataset → List Row
commissioner_rows d =
    (has d session_id_bit, Types.commissioner_session_id, encode 2 [] d.session_id)
    ∷ (
      has d border_agent_locator_bit,
      Types.border_agent_locator,
      encode 2 [] d.border_agent_locator,
    )
    ∷ (has d steering_data_bit, Types.steering_data, d.steering_data)
    ∷ (has d ae_steering_data_bit, Types.ae_steering_data, d.ae_steering_data)
    ∷ (has d nmkp_steering_data_bit, Types.nmkp_steering_data, d.nmkp_steering_data)
    ∷ (has d joiner_udp_port_bit, Types.joiner_udp_port, encode 2 [] d.joiner_udp_port)
    ∷ (has d ae_udp_port_bit, Types.ae_udp_port, encode 2 [] d.ae_udp_port)
    ∷ (has d nmkp_udp_port_bit, Types.nmkp_udp_port, encode 2 [] d.nmkp_udp_port)
    ∷ []

pub encode_commissioner-rows :
    (payload : List ℕ) (d : CommissionerDataset)
    → encode_commissioner payload d ≡ append_rows payload (commissioner_rows d)
unfolding encode_commissioner commissioner_rows append_chain append_present
encode_commissioner-rows payload d = append_chain-append_rows payload _ _

pub commissioner_rows-IsRow :
    (d : CommissionerDataset) → IsCommissioner d → All IsRow (commissioner_rows d)
unfolding commissioner_rows find_rule mesh_cop_rules allows
commissioner_rows-IsRow d (flags, session, locator, steering, ae, nmkp, port, ae_port, nmkp_port) =
    (
      (λ h. (
        row-is_valid Types.commissioner_session_id (exactly 2) _ (unfold encode in omega arith) refl
            (unfold encode in refl),
        λ e. absurd (omega arith),
      )),
      (
        (λ h. (
          row-is_valid Types.border_agent_locator (exactly 2) _ (unfold encode in omega arith) refl
              (unfold encode in refl),
          λ e. absurd (omega arith),
        )),
        (
          (λ h. (
            row-is_valid Types.steering_data (at_most 16) _ (omega (arith, steering h)) refl
                (ground (arith, steering h)),
            λ e. absurd (omega arith),
          )),
          (
            (λ h. (
              row-is_valid Types.ae_steering_data (at_most 16) _ (omega (arith, ae h)) refl
                  (ground (arith, ae h)),
              λ e. absurd (omega arith),
            )),
            (
              (λ h. (
                row-is_valid Types.nmkp_steering_data (at_most 16) _ (omega (arith, nmkp h)) refl
                    (ground (arith, nmkp h)),
                λ e. absurd (omega arith),
              )),
              (
                (λ h. (
                  row-is_valid Types.joiner_udp_port (exactly 2) _ (unfold encode in omega arith)
                      refl (unfold encode in refl),
                  λ e. absurd (omega arith),
                )),
                (
                  (λ h. (
                    row-is_valid Types.ae_udp_port (exactly 2) _ (unfold encode in omega arith) refl
                        (unfold encode in refl),
                    λ e. absurd (omega arith),
                  )),
                  (
                    (λ h. (
                      row-is_valid Types.nmkp_udp_port (exactly 2) _ (unfold encode in omega arith)
                          refl (unfold encode in refl),
                      λ e. absurd (omega arith),
                    )),
                    tt,
                  ),
                ),
              ),
            ),
          ),
        ),
      ),
    )

kept_flags :
    (flags : ℕ)
    → flags < 2 ^ 16
    → copy_flag flags 256 (
        copy_flag flags 512 (
          copy_flag flags 1024 (
            copy_flag flags 2048 (
              copy_flag flags 4096
                (copy_flag flags 8192 (copy_flag flags 32768 (copy_flag flags 16384 (0))))))))
      ≡ flags / 256 * 256
kept_flags flags h =
    ap (copy_flag flags 256) (
      ap (copy_flag flags 512) (
        ap (copy_flag flags 1024) (
          ap (copy_flag flags 2048) (
            ap (copy_flag flags 4096) (
              ap (copy_flag flags 8192)
                (ap (copy_flag flags 32768) (copy_second flags) ∙ copy_first flags h)
              ∙ copy_8192 flags h)
            ∙ copy_4096 flags h)
          ∙ copy_2048 flags h)
        ∙ copy_1024 flags h)
      ∙ copy_512 flags h)
    ∙ copy_256 flags h

fields-present :
    (set : TlvSet) (d : CommissionerDataset)
    → IsCommissioner d
    → HoldsAll set (commissioner_rows d)
    → decode_commissioner_fields set default_dataset ≡ ok (present_fields d)
unfolding decode_commissioner_fields commissioner_rows present_fields copy_flag
fields-present set d (flags, session, locator, steering, ae, nmkp, port, ae_port, nmkp_port)
      (s1, (s2, (s3, (s4, (s5, (s6, (s7, (s8, end)))))))) =
    >>=-eq _
      (found-eq set Types.commissioner_session_id read_session_id _ s1
        (session_id_step (has d session_id_bit) d.session_id _ session))
      (>>=-eq _
        (found-eq set Types.border_agent_locator read_border_agent_locator _ s2 (
          border_agent_locator_step (has d border_agent_locator_bit) d.border_agent_locator _
            locator))
        (>>=-eq _
          (found-eq set Types.steering_data read_steering_data _ s3
            (steering_data_step (has d steering_data_bit) d.steering_data _))
          (>>=-eq _
            (found-eq set Types.ae_steering_data read_ae_steering_data _ s4
              (ae_steering_data_step (has d ae_steering_data_bit) d.ae_steering_data _))
            (>>=-eq _
              (found-eq set Types.nmkp_steering_data read_nmkp_steering_data _ s5
                (nmkp_steering_data_step (has d nmkp_steering_data_bit) d.nmkp_steering_data _))
              (>>=-eq _
                (found-eq set Types.joiner_udp_port read_joiner_udp_port _ s6
                  (joiner_udp_port_step (has d joiner_udp_port_bit) d.joiner_udp_port _ port))
                (>>=-eq _
                  (found-eq set Types.ae_udp_port read_ae_udp_port _ s7
                    (ae_udp_port_step (has d ae_udp_port_bit) d.ae_udp_port _ ae_port))
                  (found-eq set Types.nmkp_udp_port read_nmkp_udp_port _ s8
                      (nmkp_udp_port_step (has d nmkp_udp_port_bit) d.nmkp_udp_port _ nmkp_port)
                    ∙ ap (λ (f : ℕ). ok (record (present_fields d) { present_flags = f }))
                        (kept_flags d.present_flags flags))))))))

-- A Commissioner Dataset whose fields fit is encoded, and what is written decodes to its fields, with
-- the defaults for those that are not present, and no flag but those of the fields.
pub decode_commissioner-encode_commissioner :
    (d : CommissionerDataset)
    → IsCommissioner d
    → (payload : List ℕ) × (encode_commissioner [] d ≡ ok payload)
      × (decode_commissioner payload ≡ ok (present_fields d))
unfolding decode_commissioner
decode_commissioner-encode_commissioner d h =
    let (payload, written, parsed) =
      get_tlv_set-append_rows (commissioner_rows d) (commissioner_rows-IsRow d h) in
    (
      payload,
      encode_commissioner-rows [] d ∙ written,
      >>=-eq _ parsed (
          fields-present (insert_rows no_tlvs (commissioner_rows d)) d h (
            unfold commissioner_rows insert_rows no_tlvs in
            (refl, (refl, (refl, (refl, (refl, (refl, (refl, (refl, tt)))))))))),
    )
