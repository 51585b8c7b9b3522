-- ===== src/Dataset/Active.antt =====
-- EncodeActiveOperationalDataset and DecodeActiveOperationalDataset of
-- src/library/commissioner_impl.cpp.
pub mod Fields
pub mod Steps
pub mod Encode
pub mod RoundTrip
pub mod Safety
use ot_commissioner.Common.{
  ℕ, List, [], ◌∷◌, ◌++◌, drop, Option, none, some, Result, ok, err, died, ◌>>=◌, has_flag,
  set_flag, if◌then◌else◌,
}
use ot_commissioner.Bytes.{encode, decode}
use ot_commissioner.Tlv.Types
use ot_commissioner.Tlv.{Tlv, TlvSet, mesh_cop, no_tlvs, get_tlv_set}
use ot_commissioner.Dataset.Timestamps.{decode_timestamp, encode_timestamp}
use ot_commissioner.Dataset.Masks.{ChannelMask, encode_channel_mask, decode_channel_mask}
use Fields.{
  active_timestamp_bit, channel_bit, channel_mask_bit, extended_pan_id_bit, mesh_local_prefix_bit,
  network_master_key_bit, network_name_bit, pan_id_bit, pskc_bit, security_policy_bit,
  read_active_timestamp, read_channel, read_channel_mask, read_extended_pan_id,
  read_mesh_local_prefix, read_network_master_key, read_network_name, read_pan_id, read_pskc,
  read_security_policy,
}
use ot_commissioner.Dataset.{ActiveOperationalDataset, append_present, when_present}

-- The block for the channel mask of `EncodeActiveOperationalDataset`.
unfoldable pub append_channel_mask : ActiveOperationalDataset → List ℕ → Result (List ℕ)
append_channel_mask dataset payload =
    let flags = dataset.present_flags in
    let append = do
      value ← encode_channel_mask [] dataset.channel_mask
      append_present flags channel_mask_bit Types.channel_mask value payload
    in if has_flag flags channel_mask_bit then append else ok payload

-- `EncodeActiveOperationalDataset`, on the payload of the request.
unfoldable pub encode_active : List ℕ → ActiveOperationalDataset → Result (List ℕ)
encode_active payload d = do
  let flags = d.present_flags
  p ←
      append_present flags active_timestamp_bit Types.active_timestamp
        (encode 8 [] (encode_timestamp d.active_timestamp)) payload
  p ←
      append_present flags channel_bit Types.channel
        (encode 2 (encode 1 [] d.channel.page) d.channel.number) p
  p ← append_channel_mask d p
  p ← append_present flags extended_pan_id_bit Types.extended_pan_id d.extended_pan_id p
  p ←
      append_present flags mesh_local_prefix_bit Types.network_mesh_local_prefix d.mesh_local_prefix
        p
  p ← append_present flags network_master_key_bit Types.network_master_key d.network_master_key p
  p ← append_present flags network_name_bit Types.network_name d.network_name p
  p ← append_present flags pan_id_bit Types.pan_id (encode 2 [] d.pan_id) p
  p ← append_present flags pskc_bit Types.pskc d.pskc p
  append_present flags security_policy_bit Types.security_policy
      (encode 2 [] d.security_policy.rotation_time ++ d.security_policy.flags) p

-- `SuccessOrExit(DecodeChannelMask(..))` leaves the function on an error, but with no error set: the
-- caller's dataset `out` stays as it was.
unfoldable pub or_exit {ℓ} : {D : Type ℓ} → D → Result D → (D → Result D) → Result D
or_exit out (ok dataset) rest = rest dataset
or_exit out (err e) rest = ok out
or_exit out died rest = died

-- The blocks behind the one for the channel mask.
unfoldable pub decode_behind_mask :
    TlvSet → ActiveOperationalDataset → Result ActiveOperationalDataset
decode_behind_mask set d = do
  d ← when_present (set Types.extended_pan_id) read_extended_pan_id d
  d ← when_present (set Types.network_mesh_local_prefix) read_mesh_local_prefix d
  d ← when_present (set Types.network_master_key) read_network_master_key d
  d ← when_present (set Types.network_name) read_network_name d
  d ← when_present (set Types.pan_id) read_pan_id d
  d ← when_present (set Types.pskc) read_pskc d
  when_present (set Types.security_policy) read_security_policy d

unfoldable pub decode_fields :
    ActiveOperationalDataset → TlvSet → ActiveOperationalDataset → Result ActiveOperationalDataset
decode_fields out set d = do
  d ← when_present (set Types.active_timestamp) read_active_timestamp d
  d ← when_present (set Types.channel) read_channel d
  or_exit out (when_present (set Types.channel_mask) read_channel_mask d) (decode_behind_mask set)

-- `DecodeActiveOperationalDataset`: `out` is the caller's dataset, and `fresh` is the local one as its
-- constructor leaves it, with fields that are not initialized. The result is what `out` becomes.
unfoldable pub decode_active :
    ActiveOperationalDataset → ActiveOperationalDataset → List ℕ → Result ActiveOperationalDataset
decode_active out fresh payload = do
  set ← get_tlv_set mesh_cop no_tlvs payload
  decode_fields out set (record fresh { present_flags = 0 })
