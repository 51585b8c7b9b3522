-- ===== src/App/Merge/Refines.antt =====
-- `MergeDataset` of src/app/commissioner_app.cpp, against what it is for: a dataset is a value or nothing
-- for each field, and merging is overriding.
use ot_commissioner.Common.{
  ℕ, ◌≡◌, List, [], ◌∷◌, Option, some, none, or_else, ◌∙◌, ap, has_flag, ◌||◌, if◌then◌else◌,
}
use ot_commissioner.Dataset.Timestamps.{Timestamp}
use ot_commissioner.Dataset.Masks.{ChannelMask}
use ot_commissioner.Dataset.{
  Channel, SecurityPolicy, ActiveOperationalDataset, PendingOperationalDataset, BbrDataset,
}
use ot_commissioner.App.Merge.{copy_flags, merge_active, merge_pending, merge_bbr}
use ot_commissioner.App.Merge.Fields.{present, has_flag-copy_flags, merged_field}

-- An Active Operational Dataset, as what it says of each field.
pub record ActiveFields : Type 0 where
  pub active_timestamp : Option Timestamp
  pub channel : Option Channel
  pub channel_mask : Option ChannelMask
  pub extended_pan_id : Option (List ℕ)
  pub mesh_local_prefix : Option (List ℕ)
  pub network_master_key : Option (List ℕ)
  pub network_name : Option (List ℕ)
  pub pan_id : Option ℕ
  pub pskc : Option (List ℕ)
  pub security_policy : Option SecurityPolicy

unfoldable pub active_fields : ActiveOperationalDataset → ActiveFields
active_fields d =
    let flags = d.present_flags in
    record {
      active_timestamp = present flags 32768 d.active_timestamp;
      channel = present flags 16384 d.channel;
      channel_mask = present flags 8192 d.channel_mask;
      extended_pan_id = present flags 4096 d.extended_pan_id;
      mesh_local_prefix = present flags 2048 d.mesh_local_prefix;
      network_master_key = present flags 1024 d.network_master_key;
      network_name = present flags 512 d.network_name;
      pan_id = present flags 256 d.pan_id;
      pskc = present flags 128 d.pskc;
      security_policy = present flags 64 d.security_policy;
    }

unfoldable pub override_active : ActiveFields → ActiveFields → ActiveFields
override_active src dst = record {
  active_timestamp = or_else src.active_timestamp dst.active_timestamp;
  channel = or_else src.channel dst.channel;
  channel_mask = or_else src.channel_mask dst.channel_mask;
  extended_pan_id = or_else src.extended_pan_id dst.extended_pan_id;
  mesh_local_prefix = or_else src.mesh_local_prefix dst.mesh_local_prefix;
  network_master_key = or_else src.network_master_key dst.network_master_key;
  network_name = or_else src.network_name dst.network_name;
  pan_id = or_else src.pan_id dst.pan_id;
  pskc = or_else src.pskc dst.pskc;
  security_policy = or_else src.security_policy dst.security_policy;
}

-- The numbers of the bits of the flags.
abbrev pub active_numbers : List ℕ
active_numbers = 15 ∷ 14 ∷ 13 ∷ 12 ∷ 11 ∷ 10 ∷ 9 ∷ 8 ∷ 7 ∷ 6 ∷ []

-- Merging Active Operational Datasets is overriding, field by field: a field that the source has
-- replaces that of the destination, and any other field of the destination stays as it is.
pub merge_active_refines :
    (dst src : ActiveOperationalDataset)
    → active_fields (merge_active dst src) ≡ override_active (active_fields src) (active_fields dst)
unfolding active_fields merge_active override_active
merge_active_refines dst src =
    let s = src.present_flags in
    let t = dst.present_flags in
    let flag = λ (i : ℕ). has_flag-copy_flags i active_numbers s t in
    λ k. record {
      active_timestamp =
          merged_field s t _ 32768 src.active_timestamp dst.active_timestamp (flag 15) k;
      channel = merged_field s t _ 16384 src.channel dst.channel (flag 14) k;
      channel_mask = merged_field s t _ 8192 src.channel_mask dst.channel_mask (flag 13) k;
      extended_pan_id = merged_field s t _ 4096 src.extended_pan_id dst.extended_pan_id (flag 12) k;
      mesh_local_prefix =
          merged_field s t _ 2048 src.mesh_local_prefix dst.mesh_local_prefix (flag 11) k;
      network_master_key =
          merged_field s t _ 1024 src.network_master_key dst.network_master_key (flag 10) k;
      network_name = merged_field s t _ 512 src.network_name dst.network_name (flag 9) k;
      pan_id = merged_field s t _ 256 src.pan_id dst.pan_id (flag 8) k;
      pskc = merged_field s t _ 128 src.pskc dst.pskc (flag 7) k;
      security_policy = merged_field s t _ 64 src.security_policy dst.security_policy (flag 6) k;
    }

pub record PendingFields : Type 0 where
  pub active : ActiveFields
  pub delay_timer : Option ℕ
  pub pending_timestamp : Option Timestamp

unfoldable pub pending_fields : PendingOperationalDataset → PendingFields
pending_fields d =
    let flags = d.active.present_flags in
    record {
      active = active_fields d.active;
      delay_timer = present flags 32 d.delay_timer;
      pending_timestamp = present flags 16 d.pending_timestamp;
    }

unfoldable pub override_pending : PendingFields → PendingFields → PendingFields
override_pending src dst = record {
  active = override_active src.active dst.active;
  delay_timer = or_else src.delay_timer dst.delay_timer;
  pending_timestamp = or_else src.pending_timestamp dst.pending_timestamp;
}

pub record BbrFields : Type 0 where
  pub tri_hostname : Option (List ℕ)
  pub registrar_hostname : Option (List ℕ)
  pub registrar_ipv6_addr : Option (List ℕ)

unfoldable pub bbr_fields : BbrDataset → BbrFields
bbr_fields d =
    let flags = d.present_flags in
    record {
      tri_hostname = present flags 32768 d.tri_hostname;
      registrar_hostname = present flags 16384 d.registrar_hostname;
      registrar_ipv6_addr = present flags 8192 d.registrar_ipv6_addr;
    }

unfoldable pub override_bbr : BbrFields → BbrFields → BbrFields
override_bbr src dst = record {
  tri_hostname = or_else src.tri_hostname dst.tri_hostname;
  registrar_hostname = or_else src.registrar_hostname dst.registrar_hostname;
  registrar_ipv6_addr = or_else src.registrar_ipv6_addr dst.registrar_ipv6_addr;
}

abbrev pending_numbers : List ℕ
pending_numbers = 4 ∷ 5 ∷ []

-- The flags of the derived class are none of the base class.
base_fields :
    (d : ActiveOperationalDataset) (flags : ℕ)
    → active_fields (record d { present_flags = copy_flags (16 ∷ 32 ∷ []) flags d.present_flags })
      ≡ active_fields d
unfolding active_fields
base_fields d flags =
    let t = d.present_flags in
    let flag = λ (i : ℕ). has_flag-copy_flags i pending_numbers flags t in
    λ k. record {
      active_timestamp = if flag 15 k then some d.active_timestamp else none;
      channel = if flag 14 k then some d.channel else none;
      channel_mask = if flag 13 k then some d.channel_mask else none;
      extended_pan_id = if flag 12 k then some d.extended_pan_id else none;
      mesh_local_prefix = if flag 11 k then some d.mesh_local_prefix else none;
      network_master_key = if flag 10 k then some d.network_master_key else none;
      network_name = if flag 9 k then some d.network_name else none;
      pan_id = if flag 8 k then some d.pan_id else none;
      pskc = if flag 7 k then some d.pskc else none;
      security_policy = if flag 6 k then some d.security_policy else none;
    }

-- Merging Pending Operational Datasets, with the active dataset in them, and BBR Datasets is overriding,
-- field by field, too.
pub merge_pending_refines :
    (dst src : PendingOperationalDataset) (bbr_dst bbr_src : BbrDataset)
    → (pending_fields (merge_pending dst src)
        ≡ override_pending (pending_fields src) (pending_fields dst))
      × (bbr_fields (merge_bbr bbr_dst bbr_src)
          ≡ override_bbr (bbr_fields bbr_src) (bbr_fields bbr_dst))
unfolding pending_fields merge_pending merge_active override_pending bbr_fields merge_bbr
    override_bbr
merge_pending_refines dst src bbr_dst bbr_src =
    let s = src.active.present_flags in
    let active = merge_active dst.active src.active in
    let base = λ (i : ℕ). has_flag-copy_flags i active_numbers s dst.active.present_flags in
    let flag = λ (i : ℕ). has_flag-copy_flags i pending_numbers s active.present_flags in
    let bbr = λ (i : ℕ).
      has_flag-copy_flags i (15 ∷ 14 ∷ 13 ∷ []) bbr_src.present_flags bbr_dst.present_flags in
    (
      (λ k. record {
        active = (base_fields active s ∙ merge_active_refines dst.active src.active) k;
        delay_timer =
            merged_field s dst.active.present_flags _ 32 src.delay_timer dst.delay_timer
              (flag 5 ∙ ap (λ b. has_flag s 32 || b) (base 5)) k;
        pending_timestamp =
            merged_field s dst.active.present_flags _ 16 src.pending_timestamp dst.pending_timestamp
              (flag 4 ∙ ap (λ b. has_flag s 16 || b) (base 4)) k;
      }),
      (λ k. record {
        tri_hostname =
            merged_field bbr_src.present_flags bbr_dst.present_flags _ 32768 bbr_src.tri_hostname
              bbr_dst.tri_hostname (bbr 15) k;
        registrar_hostname =
            merged_field bbr_src.present_flags bbr_dst.present_flags _ 16384
              bbr_src.registrar_hostname bbr_dst.registrar_hostname (bbr 14) k;
        registrar_ipv6_addr =
            merged_field bbr_src.present_flags bbr_dst.present_flags _ 8192
              bbr_src.registrar_ipv6_addr bbr_dst.registrar_ipv6_addr (bbr 13) k;
      }),
    )
