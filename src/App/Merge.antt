-- ===== src/App/Merge.antt =====
-- `MergeDataset` of src/app/commissioner_app.cpp for each kind of dataset. SET_IF_PRESENT copies a field
-- and its flag; the fields are taken one by one, and the flags in the order of the macros.
pub mod Fields
pub mod Refines
pub mod Commissioner
use ot_commissioner.Common.{ℕ, Bool, List, [], ◌∷◌, has_flag, set_flag, clear_flag, if◌then◌else◌}
use ot_commissioner.Dataset.Active.Fields.{
  active_timestamp_bit, channel_bit, channel_mask_bit, extended_pan_id_bit, mesh_local_prefix_bit,
  network_master_key_bit, network_name_bit, pan_id_bit, pskc_bit, security_policy_bit,
}
use ot_commissioner.Dataset.Pending.{delay_timer_bit, pending_timestamp_bit}
use ot_commissioner.Dataset.Commissioner.{
  CommissionerDataset, session_id_bit, border_agent_locator_bit, steering_data_bit,
  ae_steering_data_bit, nmkp_steering_data_bit, joiner_udp_port_bit, ae_udp_port_bit,
  nmkp_udp_port_bit,
}
use ot_commissioner.Dataset.Requests.{
  tri_hostname_bit, registrar_hostname_bit, registrar_ipv6_addr_bit,
}
use ot_commissioner.Dataset.Flags.{copy_flag}
use ot_commissioner.Dataset.{ActiveOperationalDataset, PendingOperationalDataset, BbrDataset}

-- The field after SET_IF_PRESENT.
abbrev pub pick {ℓ} : {A : Type ℓ} → ℕ → ℕ → A → A → A
pick flags mask from to = if has_flag flags mask then from else to

-- The flags after SET_IF_PRESENT for each mask.
unfoldable pub copy_flags : List ℕ → ℕ → ℕ → ℕ
copy_flags [] flags to = to
copy_flags (mask ∷ masks) flags to = copy_flags masks flags (copy_flag flags mask to)

-- The SET_IF_PRESENT that takes the flag away where the source has none.
unfoldable pub sync_flag : ℕ → ℕ → ℕ → ℕ
sync_flag flags mask to = if has_flag flags mask then set_flag to mask else clear_flag to mask

unfoldable pub sync_flags : List ℕ → ℕ → ℕ → ℕ
sync_flags [] flags to = to
sync_flags (mask ∷ masks) flags to = sync_flags masks flags (sync_flag flags mask to)

abbrev pub active_bits : List ℕ
active_bits =
    active_timestamp_bit ∷ channel_bit ∷ channel_mask_bit ∷ extended_pan_id_bit
    ∷ mesh_local_prefix_bit ∷ network_master_key_bit ∷ network_name_bit ∷ pan_id_bit ∷ pskc_bit
    ∷ security_policy_bit ∷ []

unfoldable pub merge_active :
    ActiveOperationalDataset → ActiveOperationalDataset → ActiveOperationalDataset
merge_active dst src =
    let flags = src.present_flags in
    record {
      active_timestamp = pick flags active_timestamp_bit src.active_timestamp dst.active_timestamp;
      channel = pick flags channel_bit src.channel dst.channel;
      channel_mask = pick flags channel_mask_bit src.channel_mask dst.channel_mask;
      extended_pan_id = pick flags extended_pan_id_bit src.extended_pan_id dst.extended_pan_id;
      mesh_local_prefix =
          pick flags mesh_local_prefix_bit src.mesh_local_prefix dst.mesh_local_prefix;
      network_master_key =
          pick flags network_master_key_bit src.network_master_key dst.network_master_key;
      network_name = pick flags network_name_bit src.network_name dst.network_name;
      pan_id = pick flags pan_id_bit src.pan_id dst.pan_id;
      pskc = pick flags pskc_bit src.pskc dst.pskc;
      security_policy = pick flags security_policy_bit src.security_policy dst.security_policy;
      present_flags = copy_flags active_bits flags dst.present_flags;
    }

-- The part of the base class, then the two fields of the derived one.
unfoldable pub merge_pending :
    PendingOperationalDataset → PendingOperationalDataset → PendingOperationalDataset
merge_pending dst src =
    let flags = src.active.present_flags in
    let active = merge_active dst.active src.active in
    record {
      active = record active {
        present_flags =
            copy_flags (pending_timestamp_bit ∷ delay_timer_bit ∷ []) flags active.present_flags;
      };
      delay_timer = pick flags delay_timer_bit src.delay_timer dst.delay_timer;
      pending_timestamp =
          pick flags pending_timestamp_bit src.pending_timestamp dst.pending_timestamp;
    }

unfoldable pub merge_bbr : BbrDataset → BbrDataset → BbrDataset
merge_bbr dst src =
    let flags = src.present_flags in
    record {
      tri_hostname = pick flags tri_hostname_bit src.tri_hostname dst.tri_hostname;
      registrar_hostname =
          pick flags registrar_hostname_bit src.registrar_hostname dst.registrar_hostname;
      registrar_ipv6_addr =
          pick flags registrar_ipv6_addr_bit src.registrar_ipv6_addr dst.registrar_ipv6_addr;
      present_flags =
          copy_flags (tri_hostname_bit ∷ registrar_hostname_bit ∷ registrar_ipv6_addr_bit ∷ [])
            flags dst.present_flags;
    }

abbrev pub synced_bits : List ℕ
synced_bits =
    steering_data_bit ∷ ae_steering_data_bit ∷ nmkp_steering_data_bit ∷ joiner_udp_port_bit
    ∷ ae_udp_port_bit ∷ nmkp_udp_port_bit ∷ []

unfoldable pub merge_commissioner : CommissionerDataset → CommissionerDataset → CommissionerDataset
merge_commissioner dst src =
    let flags = src.present_flags in
    record {
      border_agent_locator =
          pick flags border_agent_locator_bit src.border_agent_locator dst.border_agent_locator;
      session_id = pick flags session_id_bit src.session_id dst.session_id;
      steering_data = pick flags steering_data_bit src.steering_data dst.steering_data;
      ae_steering_data = pick flags ae_steering_data_bit src.ae_steering_data dst.ae_steering_data;
      nmkp_steering_data =
          pick flags nmkp_steering_data_bit src.nmkp_steering_data dst.nmkp_steering_data;
      joiner_udp_port = pick flags joiner_udp_port_bit src.joiner_udp_port dst.joiner_udp_port;
      ae_udp_port = pick flags ae_udp_port_bit src.ae_udp_port dst.ae_udp_port;
      nmkp_udp_port = pick flags nmkp_udp_port_bit src.nmkp_udp_port dst.nmkp_udp_port;
      present_flags =
          sync_flags synced_bits flags
            (copy_flags (border_agent_locator_bit ∷ session_id_bit ∷ []) flags dst.present_flags);
    }
