-- ===== src/Dataset/Commissioner.antt =====
-- The Commissioner Dataset of include/commissioner/network_data.hpp, with EncodeCommissionerDataset and
-- DecodeCommissionerDataset of src/library/commissioner_impl.cpp.
pub mod Steps
pub mod RoundTrip
pub mod Safety
use ot_commissioner.Common.{
  ℕ, List, [], ◌∷◌, Result, ok, died, ◌>>=◌, has_flag, set_flag, if◌then◌else◌,
}
use ot_commissioner.Bytes.{encode, decode}
use ot_commissioner.Tlv.Types
use ot_commissioner.Tlv.{Tlv, TlvSet, mesh_cop, no_tlvs, get_tlv_set}
use ot_commissioner.Dataset.{append_present, when_present}

pub record CommissionerDataset : Type 0 where
  pub border_agent_locator : ℕ
  pub session_id : ℕ
  pub steering_data : List ℕ
  pub ae_steering_data : List ℕ
  pub nmkp_steering_data : List ℕ
  pub joiner_udp_port : ℕ
  pub ae_udp_port : ℕ
  pub nmkp_udp_port : ℕ
  pub present_flags : ℕ

-- The default of each field.
abbrev pub default_dataset : CommissionerDataset
default_dataset = record {
  border_agent_locator = 0;
  session_id = 0;
  steering_data = [];
  ae_steering_data = [];
  nmkp_steering_data = [];
  joiner_udp_port = 0;
  ae_udp_port = 0;
  nmkp_udp_port = 0;
  present_flags = 0;
}

abbrev pub border_agent_locator_bit : ℕ
border_agent_locator_bit = 32768

abbrev pub session_id_bit : ℕ
session_id_bit = 16384

abbrev pub steering_data_bit : ℕ
steering_data_bit = 8192

abbrev pub ae_steering_data_bit : ℕ
ae_steering_data_bit = 4096

abbrev pub nmkp_steering_data_bit : ℕ
nmkp_steering_data_bit = 2048

abbrev pub joiner_udp_port_bit : ℕ
joiner_udp_port_bit = 1024

abbrev pub ae_udp_port_bit : ℕ
ae_udp_port_bit = 512

abbrev pub nmkp_udp_port_bit : ℕ
nmkp_udp_port_bit = 256

unfoldable pub read_session_id : List ℕ → CommissionerDataset → Result CommissionerDataset
read_session_id value d = do
  n ← decode 2 value
  ok (record d { session_id = n; present_flags = set_flag d.present_flags session_id_bit })

unfoldable pub read_border_agent_locator : List ℕ → CommissionerDataset → Result CommissionerDataset
read_border_agent_locator value d = do
  n ← decode 2 value
  ok (record d {
    border_agent_locator = n;
    present_flags = set_flag d.present_flags border_agent_locator_bit;
  })

unfoldable pub read_steering_data : List ℕ → CommissionerDataset → Result CommissionerDataset
read_steering_data value d =
    ok (record d {
      steering_data = value;
      present_flags = set_flag d.present_flags steering_data_bit;
    })

unfoldable pub read_ae_steering_data : List ℕ → CommissionerDataset → Result CommissionerDataset
read_ae_steering_data value d = ok (record d {
  ae_steering_data = value;
  present_flags = set_flag d.present_flags ae_steering_data_bit;
})

unfoldable pub read_nmkp_steering_data : List ℕ → CommissionerDataset → Result CommissionerDataset
read_nmkp_steering_data value d = ok (record d {
  nmkp_steering_data = value;
  present_flags = set_flag d.present_flags nmkp_steering_data_bit;
})

unfoldable pub read_joiner_udp_port : List ℕ → CommissionerDataset → Result CommissionerDataset
read_joiner_udp_port value d = do
  n ← decode 2 value
  ok (record d {
    joiner_udp_port = n;
    present_flags = set_flag d.present_flags joiner_udp_port_bit;
  })

unfoldable pub read_ae_udp_port : List ℕ → CommissionerDataset → Result CommissionerDataset
read_ae_udp_port value d = do
  n ← decode 2 value
  ok (record d { ae_udp_port = n; present_flags = set_flag d.present_flags ae_udp_port_bit })

unfoldable pub read_nmkp_udp_port : List ℕ → CommissionerDataset → Result CommissionerDataset
read_nmkp_udp_port value d = do
  n ← decode 2 value
  ok (record d { nmkp_udp_port = n; present_flags = set_flag d.present_flags nmkp_udp_port_bit })

unfoldable pub decode_commissioner_fields :
    TlvSet → CommissionerDataset → Result CommissionerDataset
decode_commissioner_fields set d = do
  d ← when_present (set Types.commissioner_session_id) read_session_id d
  d ← when_present (set Types.border_agent_locator) read_border_agent_locator d
  d ← when_present (set Types.steering_data) read_steering_data d
  d ← when_present (set Types.ae_steering_data) read_ae_steering_data d
  d ← when_present (set Types.nmkp_steering_data) read_nmkp_steering_data d
  d ← when_present (set Types.joiner_udp_port) read_joiner_udp_port d
  d ← when_present (set Types.ae_udp_port) read_ae_udp_port d
  when_present (set Types.nmkp_udp_port) read_nmkp_udp_port d

-- `DecodeCommissionerDataset`, on the payload of the response.
unfoldable pub decode_commissioner : List ℕ → Result CommissionerDataset
decode_commissioner payload = do
  set ← get_tlv_set mesh_cop no_tlvs payload
  decode_commissioner_fields set default_dataset

-- `EncodeCommissionerDataset`, on the payload of the request.
unfoldable pub encode_commissioner : List ℕ → CommissionerDataset → Result (List ℕ)
encode_commissioner payload d = do
  let flags = d.present_flags
  p ←
      append_present flags session_id_bit Types.commissioner_session_id (encode 2 [] d.session_id)
        payload
  p ←
      append_present flags border_agent_locator_bit Types.border_agent_locator
        (encode 2 [] d.border_agent_locator) p
  p ← append_present flags steering_data_bit Types.steering_data d.steering_data p
  p ← append_present flags ae_steering_data_bit Types.ae_steering_data d.ae_steering_data p
  p ← append_present flags nmkp_steering_data_bit Types.nmkp_steering_data d.nmkp_steering_data p
  p ←
      append_present flags joiner_udp_port_bit Types.joiner_udp_port (encode 2 [] d.joiner_udp_port)
        p
  p ← append_present flags ae_udp_port_bit Types.ae_udp_port (encode 2 [] d.ae_udp_port) p
  append_present flags nmkp_udp_port_bit Types.nmkp_udp_port (encode 2 [] d.nmkp_udp_port) p
