-- ===== src/Dataset/Active/Fields.antt =====
-- The blocks of DecodeActiveOperationalDataset in src/library/commissioner_impl.cpp: what each TLV
-- that is found does to the dataset; the flags are those of include/commissioner/network_data.hpp.
use ot_commissioner.Common.{ℕ, List, [], ◌∷◌, drop, Result, ok, died, ◌>>=◌, set_flag}
use ot_commissioner.Bytes.{decode}
use ot_commissioner.Dataset.Timestamps.{decode_timestamp}
use ot_commissioner.Dataset.Masks.{decode_channel_mask}
use ot_commissioner.Dataset.{ActiveOperationalDataset}

abbrev pub active_timestamp_bit : ℕ
active_timestamp_bit = 32768

abbrev pub channel_bit : ℕ
channel_bit = 16384

abbrev pub channel_mask_bit : ℕ
channel_mask_bit = 8192

abbrev pub extended_pan_id_bit : ℕ
extended_pan_id_bit = 4096

abbrev pub mesh_local_prefix_bit : ℕ
mesh_local_prefix_bit = 2048

abbrev pub network_master_key_bit : ℕ
network_master_key_bit = 1024

abbrev pub network_name_bit : ℕ
network_name_bit = 512

abbrev pub pan_id_bit : ℕ
pan_id_bit = 256

abbrev pub pskc_bit : ℕ
pskc_bit = 128

abbrev pub security_policy_bit : ℕ
security_policy_bit = 64

unfoldable pub read_active_timestamp :
    List ℕ → ActiveOperationalDataset → Result ActiveOperationalDataset
read_active_timestamp value d = do
  n ← decode 8 value
  ok (record d {
    active_timestamp = decode_timestamp n;
    present_flags = set_flag d.present_flags active_timestamp_bit;
  })

-- `value[0]` of an empty array is not defined: `died`.
unfoldable pub read_channel : List ℕ → ActiveOperationalDataset → Result ActiveOperationalDataset
read_channel [] d = died
read_channel (page ∷ rest) d = do
  number ← decode 2 rest
  ok (record d {
    channel = record { page = page; number = number };
    present_flags = set_flag d.present_flags channel_bit;
  })

unfoldable pub read_channel_mask :
    List ℕ → ActiveOperationalDataset → Result ActiveOperationalDataset
read_channel_mask value d = do
  mask ← decode_channel_mask value
  ok (record d { channel_mask = mask; present_flags = set_flag d.present_flags channel_mask_bit })

unfoldable pub read_extended_pan_id :
    List ℕ → ActiveOperationalDataset → Result ActiveOperationalDataset
read_extended_pan_id value d = ok (record d {
  extended_pan_id = value;
  present_flags = set_flag d.present_flags extended_pan_id_bit;
})

unfoldable pub read_mesh_local_prefix :
    List ℕ → ActiveOperationalDataset → Result ActiveOperationalDataset
read_mesh_local_prefix value d = ok (record d {
  mesh_local_prefix = value;
  present_flags = set_flag d.present_flags mesh_local_prefix_bit;
})

unfoldable pub read_network_master_key :
    List ℕ → ActiveOperationalDataset → Result ActiveOperationalDataset
read_network_master_key value d = ok (record d {
  network_master_key = value;
  present_flags = set_flag d.present_flags network_master_key_bit;
})

unfoldable pub read_network_name :
    List ℕ → ActiveOperationalDataset → Result ActiveOperationalDataset
read_network_name value d =
    ok
      (record d { network_name = value; present_flags = set_flag d.present_flags network_name_bit })

unfoldable pub read_pan_id : List ℕ → ActiveOperationalDataset → Result ActiveOperationalDataset
read_pan_id value d = do
  n ← decode 2 value
  ok (record d { pan_id = n; present_flags = set_flag d.present_flags pan_id_bit })

unfoldable pub read_pskc : List ℕ → ActiveOperationalDataset → Result ActiveOperationalDataset
read_pskc value d =
    ok (record d { pskc = value; present_flags = set_flag d.present_flags pskc_bit })

unfoldable pub read_security_policy :
    List ℕ → ActiveOperationalDataset → Result ActiveOperationalDataset
read_security_policy value d = do
  n ← decode 2 value
  ok (record d {
    security_policy = record { rotation_time = n; flags = drop 2 value };
    present_flags = set_flag d.present_flags security_policy_bit;
  })
