-- ===== src/Tlv/Types.antt =====
-- The enumeration `tlv::Type` of src/library/tlv.hpp. A Type is a number below 256: the parser casts
-- any byte to it, and one number may have a name in the Thread scope and another in MeshCoP.
use ot_commissioner.Common.{ℕ}

abbrev pub thread_status : ℕ
thread_status = 4

abbrev pub thread_timeout : ℕ
thread_timeout = 11

abbrev pub thread_ipv6_addresses : ℕ
thread_ipv6_addresses = 14

abbrev pub thread_commissioner_session_id : ℕ
thread_commissioner_session_id = 15

abbrev pub thread_commissioner_token : ℕ
thread_commissioner_token = 63

abbrev pub thread_commissioner_signature : ℕ
thread_commissioner_signature = 64

abbrev pub channel : ℕ
channel = 0

abbrev pub pan_id : ℕ
pan_id = 1

abbrev pub extended_pan_id : ℕ
extended_pan_id = 2

abbrev pub network_name : ℕ
network_name = 3

abbrev pub pskc : ℕ
pskc = 4

abbrev pub network_master_key : ℕ
network_master_key = 5

abbrev pub network_key_sequence_counter : ℕ
network_key_sequence_counter = 6

abbrev pub network_mesh_local_prefix : ℕ
network_mesh_local_prefix = 7

abbrev pub steering_data : ℕ
steering_data = 8

abbrev pub border_agent_locator : ℕ
border_agent_locator = 9

abbrev pub commissioner_id : ℕ
commissioner_id = 10

abbrev pub commissioner_session_id : ℕ
commissioner_session_id = 11

abbrev pub active_timestamp : ℕ
active_timestamp = 14

abbrev pub commissioner_udp_port : ℕ
commissioner_udp_port = 15

abbrev pub security_policy : ℕ
security_policy = 12

abbrev pub pending_timestamp : ℕ
pending_timestamp = 51

abbrev pub delay_timer : ℕ
delay_timer = 52

abbrev pub channel_mask : ℕ
channel_mask = 53

abbrev pub get : ℕ
get = 13

abbrev pub state : ℕ
state = 16

abbrev pub joiner_dtls_encapsulation : ℕ
joiner_dtls_encapsulation = 17

abbrev pub joiner_udp_port : ℕ
joiner_udp_port = 18

abbrev pub joiner_iid : ℕ
joiner_iid = 19

abbrev pub joiner_router_locator : ℕ
joiner_router_locator = 20

abbrev pub joiner_router_kek : ℕ
joiner_router_kek = 21

abbrev pub count : ℕ
count = 54

abbrev pub period : ℕ
period = 55

abbrev pub scan_duration : ℕ
scan_duration = 56

abbrev pub energy_list : ℕ
energy_list = 57

abbrev pub secure_dissemination : ℕ
secure_dissemination = 58

abbrev pub provisioning_url : ℕ
provisioning_url = 32

abbrev pub vendor_name : ℕ
vendor_name = 33

abbrev pub vendor_model : ℕ
vendor_model = 34

abbrev pub vendor_sw_version : ℕ
vendor_sw_version = 35

abbrev pub vendor_data : ℕ
vendor_data = 36

abbrev pub vendor_stack_version : ℕ
vendor_stack_version = 37

abbrev pub udp_encapsulation : ℕ
udp_encapsulation = 48

abbrev pub ipv6_address : ℕ
ipv6_address = 49

abbrev pub domain_name : ℕ
domain_name = 59

abbrev pub domain_prefix : ℕ
domain_prefix = 60

abbrev pub ae_steering_data : ℕ
ae_steering_data = 61

abbrev pub nmkp_steering_data : ℕ
nmkp_steering_data = 62

abbrev pub commissioner_token : ℕ
commissioner_token = 63

abbrev pub commissioner_signature : ℕ
commissioner_signature = 64

abbrev pub ae_udp_port : ℕ
ae_udp_port = 65

abbrev pub nmkp_udp_port : ℕ
nmkp_udp_port = 66

abbrev pub tri_hostname : ℕ
tri_hostname = 67

abbrev pub registrar_ipv6_address : ℕ
registrar_ipv6_address = 68

abbrev pub registrar_hostname : ℕ
registrar_hostname = 69

abbrev pub commissioner_pen_signature : ℕ
commissioner_pen_signature = 70

abbrev pub discovery_request : ℕ
discovery_request = 128

abbrev pub discovery_response : ℕ
discovery_response = 129
