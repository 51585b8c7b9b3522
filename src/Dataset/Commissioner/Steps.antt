-- ===== src/Dataset/Commissioner/Steps.antt =====
-- Each block of DecodeCommissionerDataset in src/library/commissioner_impl.cpp on the TLV that the
-- matching block of EncodeCommissionerDataset writes.
use ot_commissioner.Common.{
  ℕ, ◌^◌, ◌<◌, ◌≡◌, refl, Bool, true, false, List, [], none, some, ok, set_flag, if◌then◌else◌,
}
use ot_commissioner.Bytes.{encode}
use ot_commissioner.Bytes.RoundTrip.{decode-encode_all}
use ot_commissioner.Tlv.Types
use ot_commissioner.Tlv.{empty_tlv}
use ot_commissioner.Dataset.{when_present}
use ot_commissioner.Dataset.Commissioner.{
  CommissionerDataset, session_id_bit, border_agent_locator_bit, steering_data_bit,
  ae_steering_data_bit, nmkp_steering_data_bit, joiner_udp_port_bit, ae_udp_port_bit,
  nmkp_udp_port_bit, read_session_id, read_border_agent_locator, read_steering_data,
  read_ae_steering_data, read_nmkp_steering_data, read_joiner_udp_port, read_ae_udp_port,
  read_nmkp_udp_port,
}

pub session_id_step :
    (present : Bool) (v : ℕ) (d : CommissionerDataset)
    → (present ≡ true → v < 2 ^ 16)
    → when_present
        (if present then some (empty_tlv Types.commissioner_session_id (encode 2 [] v)) else none)
        read_session_id
        d
      ≡ ok (record d {
        session_id = if present then v else d.session_id;
        present_flags =
            if present then set_flag d.present_flags session_id_bit else d.present_flags;
      })
unfolding when_present read_session_id
session_id_step true v d h = rw (decode-encode_all 2 v (h refl)) refl
session_id_step false v d h = refl

pub border_agent_locator_step :
    (present : Bool) (v : ℕ) (d : CommissionerDataset)
    → (present ≡ true → v < 2 ^ 16)
    → when_present
        (if present then some (empty_tlv Types.border_agent_locator (encode 2 [] v)) else none)
        read_border_agent_locator
        d
      ≡ ok (record d {
        border_agent_locator = if present then v else d.border_agent_locator;
        present_flags =
            if present then set_flag d.present_flags border_agent_locator_bit else d.present_flags;
      })
unfolding when_present read_border_agent_locator
border_agent_locator_step true v d h = rw (decode-encode_all 2 v (h refl)) refl
border_agent_locator_step false v d h = refl

pub steering_data_step :
    (present : Bool) (v : List ℕ) (d : CommissionerDataset)
    → when_present
        (if present then some (empty_tlv Types.steering_data v) else none)
        read_steering_data
        d
      ≡ ok (record d {
        steering_data = if present then v else d.steering_data;
        present_flags =
            if present then set_flag d.present_flags steering_data_bit else d.present_flags;
      })
unfolding when_present read_steering_data
steering_data_step true v d = refl
steering_data_step false v d = refl

pub ae_steering_data_step :
    (present : Bool) (v : List ℕ) (d : CommissionerDataset)
    → when_present
        (if present then some (empty_tlv Types.ae_steering_data v) else none)
        read_ae_steering_data
        d
      ≡ ok (record d {
        ae_steering_data = if present then v else d.ae_steering_data;
        present_flags =
            if present then set_flag d.present_flags ae_steering_data_bit else d.present_flags;
      })
unfolding when_present read_ae_steering_data
ae_steering_data_step true v d = refl
ae_steering_data_step false v d = refl

pub nmkp_steering_data_step :
    (present : Bool) (v : List ℕ) (d : CommissionerDataset)
    → when_present
        (if present then some (empty_tlv Types.nmkp_steering_data v) else none)
        read_nmkp_steering_data
        d
      ≡ ok (record d {
        nmkp_steering_data = if present then v else d.nmkp_steering_data;
        present_flags =
            if present then set_flag d.present_flags nmkp_steering_data_bit else d.present_flags;
      })
unfolding when_present read_nmkp_steering_data
nmkp_steering_data_step true v d = refl
nmkp_steering_data_step false v d = refl

pub joiner_udp_port_step :
    (present : Bool) (v : ℕ) (d : CommissionerDataset)
    → (present ≡ true → v < 2 ^ 16)
    → when_present
        (if present then some (empty_tlv Types.joiner_udp_port (encode 2 [] v)) else none)
        read_joiner_udp_port
        d
      ≡ ok (record d {
        joiner_udp_port = if present then v else d.joiner_udp_port;
        present_flags =
            if present then set_flag d.present_flags joiner_udp_port_bit else d.present_flags;
      })
unfolding when_present read_joiner_udp_port
joiner_udp_port_step true v d h = rw (decode-encode_all 2 v (h refl)) refl
joiner_udp_port_step false v d h = refl

pub ae_udp_port_step :
    (present : Bool) (v : ℕ) (d : CommissionerDataset)
    → (present ≡ true → v < 2 ^ 16)
    → when_present
        (if present then some (empty_tlv Types.ae_udp_port (encode 2 [] v)) else none)
        read_ae_udp_port
        d
      ≡ ok (record d {
        ae_udp_port = if present then v else d.ae_udp_port;
        present_flags =
            if present then set_flag d.present_flags ae_udp_port_bit else d.present_flags;
      })
unfolding when_present read_ae_udp_port
ae_udp_port_step true v d h = rw (decode-encode_all 2 v (h refl)) refl
ae_udp_port_step false v d h = refl

pub nmkp_udp_port_step :
    (present : Bool) (v : ℕ) (d : CommissionerDataset)
    → (present ≡ true → v < 2 ^ 16)
    → when_present
        (if present then some (empty_tlv Types.nmkp_udp_port (encode 2 [] v)) else none)
        read_nmkp_udp_port
        d
      ≡ ok (record d {
        nmkp_udp_port = if present then v else d.nmkp_udp_port;
        present_flags =
            if present then set_flag d.present_flags nmkp_udp_port_bit else d.present_flags;
      })
unfolding when_present read_nmkp_udp_port
nmkp_udp_port_step true v d h = rw (decode-encode_all 2 v (h refl)) refl
nmkp_udp_port_step false v d h = refl
