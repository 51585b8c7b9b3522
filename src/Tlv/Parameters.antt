-- ===== src/Tlv/Parameters.antt =====
-- `IsDatasetParameter` of src/library/tlv.cpp.
use ot_commissioner.Common.{
  ℕ, ◌≡◌, refl, arith, Bool, true, false, ◌||◌, List, [], ◌∷◌, ◌==◌, if◌then◌else◌, ◌⊎◌, ◌↔◌,
}
use ot_commissioner.Tlv.Types

-- `std::set<tlv::Type>::count`, for a set written as a list.
unfoldable pub contains : List ℕ → ℕ → Bool
contains [] type = false
contains (t ∷ types) type = type == t || contains types type

unfoldable pub active_set : List ℕ
active_set =
    Types.active_timestamp ∷ Types.channel ∷ Types.channel_mask ∷ Types.extended_pan_id
    ∷ Types.network_mesh_local_prefix ∷ Types.network_master_key ∷ Types.network_name ∷ Types.pan_id
    ∷ Types.pskc ∷ Types.security_policy ∷ []

unfoldable pub pending_set : List ℕ
pending_set =
    Types.active_timestamp ∷ Types.channel ∷ Types.channel_mask ∷ Types.delay_timer
    ∷ Types.extended_pan_id ∷ Types.network_mesh_local_prefix ∷ Types.network_master_key
    ∷ Types.network_name ∷ Types.pan_id ∷ Types.pending_timestamp ∷ Types.pskc
    ∷ Types.security_policy ∷ []

unfoldable pub is_dataset_parameter : Bool → ℕ → Bool
is_dataset_parameter is_active type = contains (if is_active then active_set else pending_set) type

-- The parameters of a pending dataset are those of an active one, with the Delay Timer and the
-- Pending Timestamp, which are no parameters of an active dataset.
pub pending-active :
    (type : ℕ)
    → ((is_dataset_parameter false type ≡ true) ↔ (
        (is_dataset_parameter true type ≡ true)
        ⊎ (type ≡ Types.delay_timer)
        ⊎ (type ≡ Types.pending_timestamp)))
      × (is_dataset_parameter true Types.delay_timer ≡ false)
      × (is_dataset_parameter true Types.pending_timestamp ≡ false)
unfolding is_dataset_parameter contains active_set pending_set
pending-active type = ((λ h. ground arith, λ h. ground arith), refl, refl)
