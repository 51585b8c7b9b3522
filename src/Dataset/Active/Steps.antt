-- ===== src/Dataset/Active/Steps.antt =====
-- Each block of DecodeActiveOperationalDataset in src/library/commissioner_impl.cpp on the TLV that the
-- matching block of EncodeActiveOperationalDataset writes.
use ot_commissioner.Common.{
  ℕ, ◌%◌, ◌^◌, ◌<◌, ◌≡◌, refl, arith, Bool, true, false, List, [], ◌++◌, drop, none, some, ok,
  set_flag, if◌then◌else◌,
}
use ot_commissioner.Bytes.{encode}
use ot_commissioner.Bytes.RoundTrip.{decode-encode, decode-encode_all}
use ot_commissioner.Tlv.Types
use ot_commissioner.Tlv.{empty_tlv}
use ot_commissioner.Dataset.Timestamps.{
  Timestamp, IsTimestamp, encode_timestamp, encode_timestamp_lt, decode_timestamp-encode_timestamp,
}
use ot_commissioner.Dataset.Masks.{ChannelMask, mask_bytes, decode_channel_mask-mask_bytes}
use ot_commissioner.Dataset.{ActiveOperationalDataset, Channel, SecurityPolicy, when_present}
use ot_commissioner.Dataset.Active.Fields.{
  active_timestamp_bit, channel_bit, channel_mask_bit, extended_pan_id_bit, mesh_local_prefix_bit,
  network_master_key_bit, network_name_bit, pan_id_bit, pskc_bit, security_policy_bit,
  read_active_timestamp, read_channel, read_channel_mask, read_extended_pan_id,
  read_mesh_local_prefix, read_network_master_key, read_network_name, read_pan_id, read_pskc,
  read_security_policy,
}

pub active_timestamp_step :
    (present : Bool) (v : Timestamp) (d : ActiveOperationalDataset)
    → (present ≡ true → IsTimestamp v)
    → when_present
        (if present
          then some (empty_tlv Types.active_timestamp (encode 8 [] (encode_timestamp v)))
          else none)
        read_active_timestamp
        d
      ≡ ok (record d {
        active_timestamp = if present then v else d.active_timestamp;
        present_flags =
            if present then set_flag d.present_flags active_timestamp_bit else d.present_flags;
      })
unfolding when_present read_active_timestamp
active_timestamp_step true v d h =
    rw
      (
        decode-encode_all 8 (encode_timestamp v) (encode_timestamp_lt v (h refl)),
        decode_timestamp-encode_timestamp v (h refl),
      )
      refl
active_timestamp_step false v d h = refl

pub channel_step :
    (present : Bool) (v : Channel) (d : ActiveOperationalDataset)
    → (present ≡ true → (v.page < 256) × (v.number < 2 ^ 16))
    → when_present
        (if present
          then some (empty_tlv Types.channel (encode 2 (encode 1 [] v.page) v.number))
          else none)
        read_channel
        d
      ≡ ok (record d {
        channel = if present then v else d.channel;
        present_flags = if present then set_flag d.present_flags channel_bit else d.present_flags;
      })
unfolding when_present read_channel encode
channel_step true v d h =
    let page : v.page % 256 ≡ v.page = omega (arith, h refl) in
    rw (page, decode-encode_all 2 v.number (omega (arith, h refl))) refl
channel_step false v d h = refl

pub channel_mask_step :
    (present : Bool) (v : ChannelMask) (d : ActiveOperationalDataset)
    → when_present
        (if present then some (empty_tlv Types.channel_mask (mask_bytes v)) else none)
        read_channel_mask
        d
      ≡ ok (record d {
        channel_mask = if present then v else d.channel_mask;
        present_flags =
            if present then set_flag d.present_flags channel_mask_bit else d.present_flags;
      })
unfolding when_present read_channel_mask
channel_mask_step true v d = rw (decode_channel_mask-mask_bytes v) refl
channel_mask_step false v d = refl

pub extended_pan_id_step :
    (present : Bool) (v : List ℕ) (d : ActiveOperationalDataset)
    → when_present
        (if present then some (empty_tlv Types.extended_pan_id v) else none)
        read_extended_pan_id
        d
      ≡ ok (record d {
        extended_pan_id = if present then v else d.extended_pan_id;
        present_flags =
            if present then set_flag d.present_flags extended_pan_id_bit else d.present_flags;
      })
unfolding when_present read_extended_pan_id
extended_pan_id_step true v d = refl
extended_pan_id_step false v d = refl

pub mesh_local_prefix_step :
    (present : Bool) (v : List ℕ) (d : ActiveOperationalDataset)
    → when_present
        (if present then some (empty_tlv Types.network_mesh_local_prefix v) else none)
        read_mesh_local_prefix
        d
      ≡ ok (record d {
        mesh_local_prefix = if present then v else d.mesh_local_prefix;
        present_flags =
            if present then set_flag d.present_flags mesh_local_prefix_bit else d.present_flags;
      })
unfolding when_present read_mesh_local_prefix
mesh_local_prefix_step true v d = refl
mesh_local_prefix_step false v d = refl

pub network_master_key_step :
    (present : Bool) (v : List ℕ) (d : ActiveOperationalDataset)
    → when_present
        (if present then some (empty_tlv Types.network_master_key v) else none)
        read_network_master_key
        d
      ≡ ok (record d {
        network_master_key = if present then v else d.network_master_key;
        present_flags =
            if present then set_flag d.present_flags network_master_key_bit else d.present_flags;
      })
unfolding when_present read_network_master_key
network_master_key_step true v d = refl
network_master_key_step false v d = refl

pub network_name_step :
    (present : Bool) (v : List ℕ) (d : ActiveOperationalDataset)
    → when_present
        (if present then some (empty_tlv Types.network_name v) else none)
        read_network_name
        d
      ≡ ok (record d {
        network_name = if present then v else d.network_name;
        present_flags =
            if present then set_flag d.present_flags network_name_bit else d.present_flags;
      })
unfolding when_present read_network_name
network_name_step true v d = refl
network_name_step false v d = refl

pub pan_id_step :
    (present : Bool) (v : ℕ) (d : ActiveOperationalDataset)
    → (present ≡ true → v < 2 ^ 16)
    → when_present
        (if present then some (empty_tlv Types.pan_id (encode 2 [] v)) else none)
        read_pan_id
        d
      ≡ ok (record d {
        pan_id = if present then v else d.pan_id;
        present_flags = if present then set_flag d.present_flags pan_id_bit else d.present_flags;
      })
unfolding when_present read_pan_id
pan_id_step true v d h = rw (decode-encode_all 2 v (h refl)) refl
pan_id_step false v d h = refl

pub pskc_step :
    (present : Bool) (v : List ℕ) (d : ActiveOperationalDataset)
    → when_present (if present then some (empty_tlv Types.pskc v) else none) read_pskc d
      ≡ ok (record d {
        pskc = if present then v else d.pskc;
        present_flags = if present then set_flag d.present_flags pskc_bit else d.present_flags;
      })
unfolding when_present read_pskc
pskc_step true v d = refl
pskc_step false v d = refl

drop_two : (n : ℕ) (flags : List ℕ) → drop 2 (encode 2 [] n ++ flags) ≡ flags
unfolding encode
drop_two n flags = refl

pub security_policy_step :
    (present : Bool) (v : SecurityPolicy) (d : ActiveOperationalDataset)
    → (present ≡ true → v.rotation_time < 2 ^ 16)
    → when_present
        (if present
          then some (empty_tlv Types.security_policy (encode 2 [] v.rotation_time ++ v.flags))
          else none)
        read_security_policy
        d
      ≡ ok (record d {
        security_policy = if present then v else d.security_policy;
        present_flags =
            if present then set_flag d.present_flags security_policy_bit else d.present_flags;
      })
unfolding when_present read_security_policy
security_policy_step true v d h =
    rw (decode-encode 2 v.rotation_time v.flags (h refl), drop_two v.rotation_time v.flags) refl
security_policy_step false v d h = refl
