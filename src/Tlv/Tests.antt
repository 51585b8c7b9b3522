-- ===== src/Tlv/Tests.antt =====
-- Concrete runs of src/library/tlv.cpp, and the theorems at concrete inputs.
use ot_commissioner.Common.{
  ℕ, ◌≡◌, refl, arith, List, [], ◌∷◌, ◌++◌, ok, err, bad_format, true, ◌≢◌, replicate, some,
}
use ot_commissioner.Tlv.Types
use ot_commissioner.Tlv.Length.{find_rule, allows, mesh_cop_rules}
use ot_commissioner.Tlv.{
  Tlv, mesh_cop, is_valid, serialize, put_length, is_extended_tlv, deserialize, take_value,
  get_tlv_set, get_tlv_set_loop, keep_valid, insert_tlv, no_tlvs, get_tlv, empty_tlv,
}
use ot_commissioner.Tlv.Parse.{long_prefix_lost, get_tlv_set-Ends, Ends, no_tlvs-IsTlvSet}
use ot_commissioner.Tlv.Message.{append_tlvs, get_tlv_set-append_tlvs, insert_all}

abbrev pan_id_tlv : Tlv
pan_id_tlv = empty_tlv Types.pan_id (0xfa ∷ 0xce ∷ [])

abbrev token_tlv : Tlv
token_tlv = empty_tlv Types.commissioner_token (9 ∷ 9 ∷ [])

abbrev long_prefix : Tlv
long_prefix = empty_tlv Types.domain_prefix (replicate 300 0)

pan_id-is_valid : is_valid pan_id_tlv ≡ true
unfolding is_valid find_rule mesh_cop_rules allows
pan_id-is_valid = refl

token-is_valid : is_valid token_tlv ≡ true
unfolding is_valid find_rule mesh_cop_rules allows
token-is_valid = refl

long_prefix-is_valid : is_valid long_prefix ≡ true
unfolding is_valid find_rule mesh_cop_rules allows
long_prefix-is_valid = refl

serialize_token : serialize token_tlv [] ≡ ok (63 ∷ 255 ∷ 0 ∷ 2 ∷ 9 ∷ 9 ∷ [])
unfolding serialize is_valid find_rule mesh_cop_rules allows put_length is_extended_tlv
serialize_token = refl

deserialize_short : deserialize mesh_cop (1 ∷ 2 ∷ 0xfa ∷ []) ≡ err bad_format
unfolding deserialize take_value
deserialize_short = refl

pan_id_found : get_tlv Types.pan_id mesh_cop (1 ∷ 2 ∷ 0xfa ∷ 0xce ∷ []) ≡ some pan_id_tlv
unfolding get_tlv get_tlv_set get_tlv_set_loop deserialize take_value keep_valid insert_tlv is_valid
    find_rule mesh_cop_rules allows no_tlvs
pan_id_found = refl

long_prefix_lost_example :
    (bytes : List ℕ) × (serialize long_prefix [] ≡ ok bytes)
    × (deserialize mesh_cop (bytes ++ []) ≢ ok (long_prefix, []))
long_prefix_lost_example = long_prefix_lost long_prefix [] refl long_prefix-is_valid (omega arith)

get_tlv_set-Ends_example : Ends mesh_cop (get_tlv_set mesh_cop no_tlvs (1 ∷ 2 ∷ 3 ∷ []))
get_tlv_set-Ends_example =
    get_tlv_set-Ends mesh_cop no_tlvs (1 ∷ 2 ∷ 3 ∷ []) (no_tlvs-IsTlvSet mesh_cop)

get_tlv_set-append_tlvs_example :
    (payload : List ℕ) × (append_tlvs [] (pan_id_tlv ∷ token_tlv ∷ []) ≡ ok payload)
    × (get_tlv_set mesh_cop no_tlvs payload ≡ ok (insert_all no_tlvs (pan_id_tlv ∷ token_tlv ∷ [])))
get_tlv_set-append_tlvs_example =
    get_tlv_set-append_tlvs mesh_cop no_tlvs (pan_id_tlv ∷ token_tlv ∷ []) (
      (refl, pan_id-is_valid, λ e. absurd (omega arith)),
      ((refl, token-is_valid, λ e. absurd (omega arith)), tt),
    )
