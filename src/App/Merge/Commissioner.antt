-- ===== src/App/Merge/Commissioner.antt =====
-- `MergeDataset` of src/app/commissioner_app.cpp for Commissioner Datasets, against what its comment says.
use ot_commissioner.Common.{ℕ, ◌≡◌, List, [], ◌∷◌, Option, or_else, ◌∙◌}
use ot_commissioner.Dataset.Commissioner.{CommissionerDataset}
use ot_commissioner.App.Merge.{merge_commissioner, copy_flags}
use ot_commissioner.App.Merge.Fields.{
  present, has_flag-copy_flags, has_flag-sync_flags, merged_field, synced_field,
}

-- A Commissioner Dataset, as what it says of each field.
pub record CommissionerFields : Type 0 where
  pub border_agent_locator : Option ℕ
  pub session_id : Option ℕ
  pub steering_data : Option (List ℕ)
  pub ae_steering_data : Option (List ℕ)
  pub nmkp_steering_data : Option (List ℕ)
  pub joiner_udp_port : Option ℕ
  pub ae_udp_port : Option ℕ
  pub nmkp_udp_port : Option ℕ

unfoldable pub commissioner_fields : CommissionerDataset → CommissionerFields
commissioner_fields d =
    let flags = d.present_flags in
    record {
      border_agent_locator = present flags 32768 d.border_agent_locator;
      session_id = present flags 16384 d.session_id;
      steering_data = present flags 8192 d.steering_data;
      ae_steering_data = present flags 4096 d.ae_steering_data;
      nmkp_steering_data = present flags 2048 d.nmkp_steering_data;
      joiner_udp_port = present flags 1024 d.joiner_udp_port;
      ae_udp_port = present flags 512 d.ae_udp_port;
      nmkp_udp_port = present flags 256 d.nmkp_udp_port;
    }

-- The steering data and the ports are the source's, there or not.
unfoldable pub replace_fields : CommissionerFields → CommissionerFields → CommissionerFields
replace_fields src dst = record src {
  border_agent_locator = or_else src.border_agent_locator dst.border_agent_locator;
  session_id = or_else src.session_id dst.session_id;
}

abbrev pub synced_numbers : List ℕ
synced_numbers = 13 ∷ 12 ∷ 11 ∷ 10 ∷ 9 ∷ 8 ∷ []

abbrev kept_numbers : List ℕ
kept_numbers = 15 ∷ 14 ∷ []

-- Merging Commissioner Datasets takes the steering data and the ports from the source, with those that
-- it does not have taken away, and lets its locator and its session id override those of the
-- destination.
pub merge_commissioner_refines :
    (dst src : CommissionerDataset)
    → commissioner_fields (merge_commissioner dst src)
      ≡ replace_fields (commissioner_fields src) (commissioner_fields dst)
unfolding commissioner_fields merge_commissioner replace_fields
merge_commissioner_refines dst src =
    let s = src.present_flags in
    let t = dst.present_flags in
    let kept = copy_flags (32768 ∷ 16384 ∷ []) s t in
    let flag = λ (i : ℕ). has_flag-sync_flags i synced_numbers s kept in
    let first = λ (i : ℕ). has_flag-copy_flags i kept_numbers s t in
    λ k. record {
      border_agent_locator =
          merged_field s t _ 32768 src.border_agent_locator dst.border_agent_locator
            (flag 15 ∙ first 15) k;
      session_id = merged_field s t _ 16384 src.session_id dst.session_id (flag 14 ∙ first 14) k;
      steering_data = synced_field s _ 8192 src.steering_data dst.steering_data (flag 13) k;
      ae_steering_data =
          synced_field s _ 4096 src.ae_steering_data dst.ae_steering_data (flag 12) k;
      nmkp_steering_data =
          synced_field s _ 2048 src.nmkp_steering_data dst.nmkp_steering_data (flag 11) k;
      joiner_udp_port = synced_field s _ 1024 src.joiner_udp_port dst.joiner_udp_port (flag 10) k;
      ae_udp_port = synced_field s _ 512 src.ae_udp_port dst.ae_udp_port (flag 9) k;
      nmkp_udp_port = synced_field s _ 256 src.nmkp_udp_port dst.nmkp_udp_port (flag 8) k;
    }
