-- ===== src/Tlv/Length.antt =====
-- The switches of `Tlv::IsValid` in src/library/tlv.cpp, as tables: which lengths a type allows.
use ot_commissioner.Common.{
  ℕ, ◌/◌, ◌%◌, Bool, true, ◌&&◌, ◌||◌, List, [], ◌∷◌, Option, none, some, leb, ltb, ◌==◌,
  if◌then◌else◌,
}
use ot_commissioner.Tlv.Types

-- A length of 255 announces that the length itself stands in the next two bytes.
abbrev pub escape_length : ℕ
escape_length = 255

-- The forms that the cases of the switches have.
pub data LengthRule : Type 0 where
  exactly at_most at_least : ℕ → LengthRule
  below_escape any three_or_four addresses : LengthRule

unfoldable pub allows : LengthRule → ℕ → Bool
allows (exactly n) length = length == n
allows (at_most n) length = leb length n
allows (at_least n) length = leb n length
allows below_escape length = ltb length escape_length
allows any length = true
allows three_or_four length = length == 3 || length == 4
allows addresses length = length % 16 == 0 && (leb 1 (length / 16) && leb (length / 16) 15)

-- The first case for the type; with no case a switch returns false.
unfoldable pub find_rule : ℕ → List (ℕ × LengthRule) → Option LengthRule
find_rule type [] = none
find_rule type ((t, rule) ∷ table) = if type == t then some rule else find_rule type table

unfoldable pub thread_rules : List (ℕ × LengthRule)
thread_rules =
    (Types.thread_status, exactly 1)
    ∷ (Types.thread_timeout, exactly 4)
    ∷ (Types.thread_ipv6_addresses, addresses)
    ∷ (Types.thread_commissioner_session_id, exactly 2)
    ∷ (Types.thread_commissioner_token, any)
    ∷ (Types.thread_commissioner_signature, below_escape)
    ∷ []

unfoldable pub mesh_cop_rules : List (ℕ × LengthRule)
mesh_cop_rules =
    (Types.channel, exactly 3)
    ∷ (Types.pan_id, exactly 2)
    ∷ (Types.extended_pan_id, exactly 8)
    ∷ (Types.network_name, at_most 16)
    ∷ (Types.pskc, at_most 16)
    ∷ (Types.network_master_key, exactly 16)
    ∷ (Types.network_key_sequence_counter, exactly 4)
    ∷ (Types.network_mesh_local_prefix, exactly 8)
    ∷ (Types.steering_data, at_most 16)
    ∷ (Types.border_agent_locator, exactly 2)
    ∷ (Types.commissioner_id, at_most 64)
    ∷ (Types.commissioner_session_id, exactly 2)
    ∷ (Types.active_timestamp, exactly 8)
    ∷ (Types.commissioner_udp_port, exactly 2)
    ∷ (Types.security_policy, three_or_four)
    ∷ (Types.pending_timestamp, exactly 8)
    ∷ (Types.delay_timer, exactly 4)
    ∷ (Types.channel_mask, below_escape)
    ∷ (Types.get, below_escape)
    ∷ (Types.state, exactly 1)
    ∷ (Types.joiner_dtls_encapsulation, any)
    ∷ (Types.joiner_udp_port, exactly 2)
    ∷ (Types.joiner_iid, exactly 8)
    ∷ (Types.joiner_router_locator, exactly 2)
    ∷ (Types.joiner_router_kek, exactly 16)
    ∷ (Types.count, exactly 1)
    ∷ (Types.period, exactly 2)
    ∷ (Types.scan_duration, exactly 2)
    ∷ (Types.energy_list, below_escape)
    ∷ (Types.secure_dissemination, below_escape)
    ∷ (Types.provisioning_url, at_most 64)
    ∷ (Types.vendor_name, at_most 32)
    ∷ (Types.vendor_model, at_most 32)
    ∷ (Types.vendor_sw_version, at_most 16)
    ∷ (Types.vendor_data, at_most 64)
    ∷ (Types.vendor_stack_version, below_escape)
    ∷ (Types.udp_encapsulation, at_least 4)
    ∷ (Types.ipv6_address, exactly 16)
    ∷ (Types.domain_name, at_most 16)
    ∷ (Types.domain_prefix, any)
    ∷ (Types.ae_steering_data, at_most 16)
    ∷ (Types.nmkp_steering_data, at_most 16)
    ∷ (Types.commissioner_token, any)
    ∷ (Types.commissioner_signature, below_escape)
    ∷ (Types.ae_udp_port, exactly 2)
    ∷ (Types.nmkp_udp_port, exactly 2)
    ∷ (Types.tri_hostname, below_escape)
    ∷ (Types.registrar_ipv6_address, exactly 16)
    ∷ (Types.registrar_hostname, below_escape)
    ∷ (Types.commissioner_pen_signature, below_escape)
    ∷ (Types.discovery_request, exactly 2)
    ∷ (Types.discovery_response, exactly 2)
    ∷ []
