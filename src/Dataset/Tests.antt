-- ===== src/Dataset/Tests.antt =====
-- Concrete runs of the dataset codecs of src/library/commissioner_impl.cpp, and the theorems at
-- concrete inputs.
use ot_commissioner.Common.{
  ℕ, ◌≡◌, refl, arith, List, [], ◌∷◌, some, ok, err, bad_format, ◌⊎◌, Yields, if◌then◌else◌, ◌==◌,
}
use ot_commissioner.Tlv.Types
use ot_commissioner.Tlv.Length.{find_rule, mesh_cop_rules, allows}
use ot_commissioner.Tlv.{
  TlvSet, mesh_cop, no_tlvs, get_tlv_set, get_tlv_set_loop, deserialize, take_value, keep_valid,
  insert_tlv, is_valid, empty_tlv, serialize, put_length, is_extended_tlv,
}
use ot_commissioner.Tlv.Message.{append_tlv}
use ot_commissioner.Dataset.Timestamps.{Timestamp}
use ot_commissioner.Dataset.Masks.{
  ChannelMask, decode_channel_mask, decode_channel_mask_loop, mask_bytes,
}
use ot_commissioner.Dataset.{ActiveOperationalDataset, PendingOperationalDataset, append_present}
use ot_commissioner.Dataset.Active.Encode.{IsActive, overlay}
use ot_commissioner.Dataset.Active.RoundTrip.{decode_active-encode_active}
use ot_commissioner.Dataset.Active.Safety.{decode_active_total, decode_active_bad_mask}
use ot_commissioner.Dataset.Active.{encode_active, decode_active, append_channel_mask}
use ot_commissioner.Dataset.Pending.{encode_pending, decode_pending}
use ot_commissioner.Dataset.Pending.RoundTrip.{overlay_pending, decode_pending-encode_pending}
use ot_commissioner.Dataset.Pending.Safety.{decode_pending_total}
use ot_commissioner.Dataset.Commissioner.{
  CommissionerDataset, encode_commissioner, decode_commissioner,
}
use ot_commissioner.Dataset.Commissioner.RoundTrip.{
  present_fields, decode_commissioner-encode_commissioner,
}
use ot_commissioner.Dataset.Commissioner.Safety.{decode_commissioner_total}
use ot_commissioner.Dataset.Requests.{
  get_active_operational_dataset_tlvs, get_pending_operational_dataset_tlvs, requests-encode, Asks,
  get_commissioner_dataset_tlvs, request_present, encode_tlv_type,
}

abbrev one_second : Timestamp
one_second = record { seconds = 1; ticks = 2; u = 1 }

abbrev one_page : ChannelMask
one_page = record { page = 0; masks = 0 ∷ 0x1f ∷ 0xff ∷ 0xe0 ∷ [] } ∷ []

-- A channel, a channel mask, a name and a PAN id, and a timestamp.
abbrev home : ActiveOperationalDataset
home = record {
  active_timestamp = one_second;
  channel = record { page = 0; number = 11 };
  channel_mask = one_page;
  extended_pan_id = [];
  mesh_local_prefix = [];
  network_master_key = [];
  network_name = b'h' ∷ b'o' ∷ [];
  pan_id = 0xface;
  pskc = [];
  security_policy = record { rotation_time = 0; flags = [] };
  present_flags = 0xe33f;
}

abbrev pending_home : PendingOperationalDataset
pending_home = record { active = home; delay_timer = 30000; pending_timestamp = one_second }

-- What the constructor leaves.
abbrev fresh : ActiveOperationalDataset
fresh = record home { channel = record { page = 7; number = 7 }; pan_id = 7; present_flags = 32768 }

abbrev steering : CommissionerDataset
steering = record {
  border_agent_locator = 0x0400;
  session_id = 0x1234;
  steering_data = 0xff ∷ [];
  ae_steering_data = [];
  nmkp_steering_data = [];
  joiner_udp_port = 1000;
  ae_udp_port = 0;
  nmkp_udp_port = 0;
  present_flags = 0xe400;
}

-- One TLV: a channel mask whose entry is cut off.
abbrev cut_mask : List ℕ
cut_mask = Types.channel_mask ∷ 3 ∷ 0 ∷ 4 ∷ 0 ∷ []

home-IsActive : IsActive home
home-IsActive = (
  omega arith,
  λ e. (omega arith, omega arith, omega arith),
  λ e. (omega arith, omega arith),
  λ e. (((omega arith, omega arith), tt), unfold mask_bytes in omega arith),
  λ e. absurd cc,
  λ e. absurd cc,
  λ e. absurd cc,
  λ e. omega arith,
  λ e. omega arith,
  λ e. absurd cc,
  λ e. absurd cc,
)

encode_channel :
    encode_active [] (record home { present_flags = 16384 }) ≡ ok (0 ∷ 3 ∷ 0 ∷ 0 ∷ 11 ∷ [])
unfolding encode_active append_present append_tlv serialize is_valid find_rule mesh_cop_rules allows
    put_length is_extended_tlv append_channel_mask
encode_channel = refl

session_requested : get_commissioner_dataset_tlvs 16384 ≡ Types.commissioner_session_id ∷ []
unfolding get_commissioner_dataset_tlvs request_present encode_tlv_type
session_requested = refl

decode_active-encode_active_example :
    (payload : List ℕ) × (encode_active [] home ≡ ok payload)
    × (decode_active fresh fresh payload ≡ ok (overlay fresh home))
decode_active-encode_active_example = decode_active-encode_active fresh fresh home home-IsActive

decode_active_total_example :
    ((set : TlvSet) × (get_tlv_set mesh_cop no_tlvs (1 ∷ 2 ∷ 3 ∷ []) ≡ ok set)
      × Yields (decode_active fresh fresh (1 ∷ 2 ∷ 3 ∷ [])))
    ⊎ ((get_tlv_set mesh_cop no_tlvs (1 ∷ 2 ∷ 3 ∷ []) ≡ err bad_format)
        × (decode_active fresh fresh (1 ∷ 2 ∷ 3 ∷ []) ≡ err bad_format))
decode_active_total_example = decode_active_total fresh fresh (1 ∷ 2 ∷ 3 ∷ [])

abbrev cut_set : TlvSet
cut_set type =
    if type == Types.channel_mask
    then some (empty_tlv Types.channel_mask (0 ∷ 4 ∷ 0 ∷ []))
    else no_tlvs type

cut_mask_parsed : get_tlv_set mesh_cop no_tlvs cut_mask ≡ ok cut_set
unfolding get_tlv_set get_tlv_set_loop deserialize take_value keep_valid insert_tlv is_valid
    find_rule mesh_cop_rules allows
cut_mask_parsed = refl

cut_mask_fails : decode_channel_mask (0 ∷ 4 ∷ 0 ∷ []) ≡ err bad_format
unfolding decode_channel_mask decode_channel_mask_loop
cut_mask_fails = refl

decode_active_bad_mask_example : decode_active home fresh cut_mask ≡ ok home
decode_active_bad_mask_example =
    decode_active_bad_mask home fresh cut_mask cut_set
      (empty_tlv Types.channel_mask (0 ∷ 4 ∷ 0 ∷ [])) bad_format cut_mask_parsed refl cut_mask_fails

decode_pending-encode_pending_example :
    (payload : List ℕ) × (encode_pending [] pending_home ≡ ok payload)
    × (decode_pending pending_home fresh payload
        ≡ ok (overlay_pending pending_home fresh pending_home))
decode_pending-encode_pending_example =
    decode_pending-encode_pending pending_home fresh pending_home
      (home-IsActive, λ e. omega arith, λ e. (omega arith, omega arith, omega arith))

decode_pending_total_example :
    ((set : TlvSet) × (get_tlv_set mesh_cop no_tlvs cut_mask ≡ ok set)
      × Yields (decode_pending pending_home fresh cut_mask))
    ⊎ ((get_tlv_set mesh_cop no_tlvs cut_mask ≡ err bad_format)
        × (decode_pending pending_home fresh cut_mask ≡ err bad_format))
decode_pending_total_example = decode_pending_total pending_home fresh cut_mask

decode_commissioner-encode_commissioner_example :
    (payload : List ℕ) × (encode_commissioner [] steering ≡ ok payload)
    × (decode_commissioner payload ≡ ok (present_fields steering))
decode_commissioner-encode_commissioner_example = decode_commissioner-encode_commissioner steering (
  omega arith,
  λ e. omega arith,
  λ e. omega arith,
  λ e. omega arith,
  λ e. absurd cc,
  λ e. absurd cc,
  λ e. omega arith,
  λ e. absurd cc,
  λ e. absurd cc,
)

decode_commissioner_total_example :
    ((set : TlvSet) × (get_tlv_set mesh_cop no_tlvs (11 ∷ []) ≡ ok set)
      × Yields (decode_commissioner (11 ∷ [])))
    ⊎ ((get_tlv_set mesh_cop no_tlvs (11 ∷ []) ≡ err bad_format)
        × (decode_commissioner (11 ∷ []) ≡ err bad_format))
decode_commissioner_total_example = decode_commissioner_total (11 ∷ [])

requests-encode_example :
    Asks (get_active_operational_dataset_tlvs 0xe33f) (encode_active [] home)
    × Asks
        (get_pending_operational_dataset_tlvs pending_home.active.present_flags)
        (encode_pending [] pending_home)
    × Asks (get_commissioner_dataset_tlvs steering.present_flags) (encode_commissioner [] steering)
requests-encode_example =
    requests-encode home pending_home steering home-IsActive
      (home-IsActive, λ e. omega arith, λ e. (omega arith, omega arith, omega arith))
      (
        omega arith,
        λ e. omega arith,
        λ e. omega arith,
        λ e. omega arith,
        λ e. absurd cc,
        λ e. absurd cc,
        λ e. omega arith,
        λ e. absurd cc,
        λ e. absurd cc,
      )
