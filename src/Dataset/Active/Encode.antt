-- ===== src/Dataset/Active/Encode.antt =====
-- What EncodeActiveOperationalDataset writes, in
-- src/library/commissioner_impl.cpp, as rows; and what is read back.
use ot_commissioner.Common.{
  ℕ, ◌*◌, ◌/◌, ◌^◌, ◌<◌, ◌≤◌, ◌≡◌, refl, ◌∙◌, ap, arith, Bool, true, List, [], ◌∷◌, ◌++◌, length,
  All, Result, ok, ◌>>=◌, has_flag, if◌then◌else◌, Bool-cases, inl, inr,
}
use ot_commissioner.Bytes.{encode}
use ot_commissioner.Bytes.RoundTrip.{length-encode}
use ot_commissioner.Tlv.Types
use ot_commissioner.Tlv.Length.{
  exactly, at_most, below_escape, three_or_four, allows, find_rule, mesh_cop_rules,
}
use ot_commissioner.Tlv.{empty_tlv}
use ot_commissioner.Tlv.Message.{append_tlv}
use ot_commissioner.Dataset.Timestamps.{IsTimestamp, encode_timestamp}
use ot_commissioner.Dataset.Masks.{IsEntry, mask_bytes, encode_channel_mask_lem}
use ot_commissioner.Dataset.Rows.{
  row-is_valid, Row, IsRow, append_rows, append_chain, append_chain-append_rows,
}
use ot_commissioner.Dataset.{ActiveOperationalDataset, append_present}
use ot_commissioner.Dataset.Active.Fields.{
  active_timestamp_bit, channel_bit, channel_mask_bit, extended_pan_id_bit, mesh_local_prefix_bit,
  network_master_key_bit, network_name_bit, pan_id_bit, pskc_bit, security_policy_bit,
}
use ot_commissioner.Dataset.Active.{append_channel_mask, encode_active}

abbrev pub has : ActiveOperationalDataset → ℕ → Bool
has d mask = has_flag d.present_flags mask

-- The flags are a word of 16 bits, and each field that is present fits its TLV.
abbrev pub IsActive : ActiveOperationalDataset → Type 0
IsActive d =
    (d.present_flags < 2 ^ 16)
    × (has d active_timestamp_bit ≡ true → IsTimestamp d.active_timestamp)
    × (has d channel_bit ≡ true → (d.channel.page < 256) × (d.channel.number < 2 ^ 16))
    × (has d channel_mask_bit ≡ true
        → All IsEntry d.channel_mask × (length (mask_bytes d.channel_mask) < 255))
    × (has d extended_pan_id_bit ≡ true → length d.extended_pan_id ≡ 8)
    × (has d mesh_local_prefix_bit ≡ true → length d.mesh_local_prefix ≡ 8)
    × (has d network_master_key_bit ≡ true → length d.network_master_key ≡ 16)
    × (has d network_name_bit ≡ true → length d.network_name ≤ 16)
    × (has d pan_id_bit ≡ true → d.pan_id < 2 ^ 16)
    × (has d pskc_bit ≡ true → length d.pskc ≤ 16)
    × (has d security_policy_bit ≡ true
        → (d.security_policy.rotation_time < 2 ^ 16)
          × (1 ≤ length d.security_policy.flags)
          × (length d.security_policy.flags ≤ 2))

-- The fields of `d` that are present, and those of `fresh` elsewhere; of the flags, the ten that a
-- field of the active dataset has.
unfoldable pub overlay :
    ActiveOperationalDataset → ActiveOperationalDataset → ActiveOperationalDataset
overlay fresh d = record {
  active_timestamp =
      if has d active_timestamp_bit then d.active_timestamp else fresh.active_timestamp;
  channel = if has d channel_bit then d.channel else fresh.channel;
  channel_mask = if has d channel_mask_bit then d.channel_mask else fresh.channel_mask;
  extended_pan_id = if has d extended_pan_id_bit then d.extended_pan_id else fresh.extended_pan_id;
  mesh_local_prefix =
      if has d mesh_local_prefix_bit then d.mesh_local_prefix else fresh.mesh_local_prefix;
  network_master_key =
      if has d network_master_key_bit then d.network_master_key else fresh.network_master_key;
  network_name = if has d network_name_bit then d.network_name else fresh.network_name;
  pan_id = if has d pan_id_bit then d.pan_id else fresh.pan_id;
  pskc = if has d pskc_bit then d.pskc else fresh.pskc;
  security_policy = if has d security_policy_bit then d.security_policy else fresh.security_policy;
  present_flags = d.present_flags / 64 * 64;
}

unfoldable pub active_rows : ActiveOperationalDataset → List Row
active_rows d =
    (
      has d active_timestamp_bit,
      Types.active_timestamp,
      encode 8 [] (encode_timestamp d.active_timestamp),
    )
    ∷ (has d channel_bit, Types.channel, encode 2 (encode 1 [] d.channel.page) d.channel.number)
    ∷ (has d channel_mask_bit, Types.channel_mask, mask_bytes d.channel_mask)
    ∷ (has d extended_pan_id_bit, Types.extended_pan_id, d.extended_pan_id)
    ∷ (has d mesh_local_prefix_bit, Types.network_mesh_local_prefix, d.mesh_local_prefix)
    ∷ (has d network_master_key_bit, Types.network_master_key, d.network_master_key)
    ∷ (has d network_name_bit, Types.network_name, d.network_name)
    ∷ (has d pan_id_bit, Types.pan_id, encode 2 [] d.pan_id)
    ∷ (has d pskc_bit, Types.pskc, d.pskc)
    ∷ (
      has d security_policy_bit,
      Types.security_policy,
      encode 2 [] d.security_policy.rotation_time ++ d.security_policy.flags,
    )
    ∷ []

append_channel_mask-row :
    (d : ActiveOperationalDataset) (payload : List ℕ)
    → (has d channel_mask_bit ≡ true → All IsEntry d.channel_mask)
    → append_channel_mask d payload ≡ (
        if has d channel_mask_bit
        then append_tlv payload (empty_tlv Types.channel_mask (mask_bytes d.channel_mask))
        else ok payload)
unfolding append_channel_mask append_present
append_channel_mask-row d payload h = elim (Bool-cases (has d channel_mask_bit)) [
  | inl e ↦ rw (e, encode_channel_mask_lem [] d.channel_mask (h e)) refl
  | inr e ↦ rw e refl
]

-- `encode_active` with the block for the channel mask as a parameter.
active_with : (List ℕ → Result (List ℕ)) → List ℕ → ActiveOperationalDataset → Result (List ℕ)
unfolding append_present
active_with append_mask payload d = do
  let flags = d.present_flags
  p ←
      append_present flags active_timestamp_bit Types.active_timestamp
        (encode 8 [] (encode_timestamp d.active_timestamp)) payload
  p ←
      append_present flags channel_bit Types.channel
        (encode 2 (encode 1 [] d.channel.page) d.channel.number) p
  p ← append_mask p
  p ← append_present flags extended_pan_id_bit Types.extended_pan_id d.extended_pan_id p
  p ←
      append_present flags mesh_local_prefix_bit Types.network_mesh_local_prefix d.mesh_local_prefix
        p
  p ← append_present flags network_master_key_bit Types.network_master_key d.network_master_key p
  p ← append_present flags network_name_bit Types.network_name d.network_name p
  p ← append_present flags pan_id_bit Types.pan_id (encode 2 [] d.pan_id) p
  p ← append_present flags pskc_bit Types.pskc d.pskc p
  append_present flags security_policy_bit Types.security_policy
      (encode 2 [] d.security_policy.rotation_time ++ d.security_policy.flags) p

pub encode_active-rows :
    (payload : List ℕ) (d : ActiveOperationalDataset)
    → (has d channel_mask_bit ≡ true → All IsEntry d.channel_mask)
    → encode_active payload d ≡ append_rows payload (active_rows d)
unfolding encode_active active_rows active_with append_chain append_present
encode_active-rows payload d h =
    ap (λ (append : List ℕ → Result (List ℕ)). active_with append payload d)
      (λ i p. append_channel_mask-row d p h i)
    ∙ append_chain-append_rows payload _ _

pub rows-IsRow : (d : ActiveOperationalDataset) → IsActive d → All IsRow (active_rows d)
unfolding active_rows find_rule mesh_cop_rules allows
rows-IsRow d (flags, timestamp, channel, mask, ext, prefix, key, name, pan, pskc, policy) = (
  (λ h. (
    row-is_valid Types.active_timestamp (exactly 8) _
        (omega (arith, length-encode 8 (encode_timestamp d.active_timestamp))) refl
        (ground (arith, length-encode 8 (encode_timestamp d.active_timestamp))),
    λ e. absurd (omega arith),
  )),
  (
    (λ h. (
      row-is_valid Types.channel (exactly 3) _ (unfold encode in omega arith) refl
          (unfold encode in refl),
      λ e. absurd (omega arith),
    )),
    (
      (λ h. (
        row-is_valid Types.channel_mask below_escape _ (omega (arith, mask h)) refl
            (ground (arith, mask h)),
        λ e. absurd (omega arith),
      )),
      (
        (λ h. (
          row-is_valid Types.extended_pan_id (exactly 8) _ (omega (arith, ext h)) refl
              (ground (arith, ext h)),
          λ e. absurd (omega arith),
        )),
        (
          (λ h. (
            row-is_valid Types.network_mesh_local_prefix (exactly 8) _ (omega (arith, prefix h))
                refl (ground (arith, prefix h)),
            λ e. absurd (omega arith),
          )),
          (
            (λ h. (
              row-is_valid Types.network_master_key (exactly 16) _ (omega (arith, key h)) refl
                  (ground (arith, key h)),
              λ e. absurd (omega arith),
            )),
            (
              (λ h. (
                row-is_valid Types.network_name (at_most 16) _ (omega (arith, name h)) refl
                    (ground (arith, name h)),
                λ e. absurd (omega arith),
              )),
              (
                (λ h. (
                  row-is_valid Types.pan_id (exactly 2) _ (unfold encode in omega arith) refl
                      (unfold encode in refl),
                  λ e. absurd (omega arith),
                )),
                (
                  (λ h. (
                    row-is_valid Types.pskc (at_most 16) _ (omega (arith, pskc h)) refl
                        (ground (arith, pskc h)),
                    λ e. absurd (omega arith),
                  )),
                  (
                    (λ h. (
                      row-is_valid Types.security_policy three_or_four _
                          (unfold encode in omega (arith, policy h)) refl
                          (unfold encode in ground (arith, policy h)),
                      λ e. absurd (omega arith),
                    )),
                    tt,
                  ),
                ),
              ),
            ),
          ),
        ),
      ),
    ),
  ),
)
