-- ===== src/App/Joiners/Tests.antt =====
-- Joiners that are enabled and disabled, at concrete inputs.
use ot_commissioner.Common.{
  ℕ, ◌≡◌, refl, true, false, List, [], ◌∷◌, ok, err, ErrorCode, has_flag, ◌⊎◌,
}
use ot_commissioner.Coap.Client.Exchange.{is_token_equal}
use ot_commissioner.Steering.{compute_bloom_filter, add_joiner}
use ot_commissioner.Steering.Joiners.{Admits}
use ot_commissioner.App.{App, mesh_cop, JoinerInfo, JoinerEntry, after_set}
use ot_commissioner.App.Examples.{willing, empty_app}
use ot_commissioner.App.Joiners.{
  is_type, find_joiner, has_joiner, is_credential_char, validate_chars, validate_pskd, check_pskd,
  steering_data_of, commit, commit_disabled, enabled_dataset, enable_joiner, remaining,
  disabled_dataset, disable_joiner, on_joiner_request, on_joiner_finalize,
}
use ot_commissioner.App.Joiners.Enabled.{enable_joiner-Admits}
use ot_commissioner.App.Joiners.Disabled.{has_other, disable_only_joiner, disable_joiner-Admits}
use ot_commissioner.App.Joiners.Reachable.{created, enables, on_joiner_request_checked}

abbrev compute_joiner_id : ℕ → List ℕ
compute_joiner_id eui64 = eui64 ∷ 7 ∷ []

-- "ABCDEF"
abbrev pskd : List ℕ
pskd = 65 ∷ 66 ∷ 67 ∷ 68 ∷ 69 ∷ 70 ∷ []

abbrev joiner : ℕ → JoinerInfo
joiner eui64 = record { type = mesh_cop; eui64 = eui64; pskd = pskd; provisioning_url = 1 ∷ [] }

abbrev with_joiners : List JoinerEntry → App
with_joiners joiners = record empty_app { joiners = joiners }

abbrev entry : ℕ → JoinerEntry
entry eui64 = record { id = compute_joiner_id eui64; info = joiner eui64 }

short_pskd : validate_pskd (65 ∷ []) ≡ err ErrorCode.invalid_args
unfolding validate_pskd
short_pskd = refl

letter_i : validate_pskd (65 ∷ 66 ∷ 67 ∷ 68 ∷ 69 ∷ 73 ∷ []) ≡ err ErrorCode.invalid_args
unfolding validate_pskd validate_chars is_credential_char
letter_i = refl

abbrev enabled : App
enabled = (enable_joiner compute_joiner_id willing (joiner 3) empty_app).1

enable_joiner-Admits_example :
    (validate_pskd pskd ≡ ok tt)
    × (has_joiner mesh_cop (compute_joiner_id 3) [] ≡ false)
    × (on_joiner_request compute_joiner_id (compute_joiner_id 3) enabled ≡ pskd)
    × ((asked : List ℕ)
        → on_joiner_finalize compute_joiner_id (compute_joiner_id 3) asked enabled
          ≡ is_token_equal asked (1 ∷ []))
    × (has_flag enabled.commissioner_dataset.present_flags 8192 ≡ true)
    × Admits enabled.commissioner_dataset.steering_data (compute_joiner_id 3)
unfolding enable_joiner enabled_dataset check_pskd validate_pskd validate_chars is_credential_char
    has_joiner find_joiner add_joiner steering_data_of compute_bloom_filter commit after_set
enable_joiner-Admits_example =
    enable_joiner-Admits compute_joiner_id willing 3 pskd (1 ∷ []) empty_app tt refl

disable_only_joiner_example :
    find_joiner mesh_cop
      (compute_joiner_id 3)
      (disable_joiner compute_joiner_id willing mesh_cop 3 (with_joiners (entry 3 ∷ []))).1.joiners
    ≡ find_joiner mesh_cop (compute_joiner_id 3) (entry 3 ∷ [])
unfolding has_other is_type
disable_only_joiner_example =
    disable_only_joiner compute_joiner_id willing 3 (with_joiners (entry 3 ∷ [])) mesh_cop 3
      (7 ∷ []) refl refl

disable_joiner-Admits_example :
    Admits
      (disable_joiner compute_joiner_id willing mesh_cop 3
        (with_joiners (entry 3 ∷ entry 4 ∷ []))).1.commissioner_dataset.steering_data
      (compute_joiner_id 3)
unfolding has_other is_type disable_joiner disabled_dataset remaining add_joiner
    compute_bloom_filter commit_disabled commit after_set
disable_joiner-Admits_example =
    disable_joiner-Admits compute_joiner_id willing 3 (with_joiners (entry 3 ∷ entry 4 ∷ [])) refl
      refl

on_joiner_request_checked_example :
    (on_joiner_request compute_joiner_id (compute_joiner_id 3) enabled ≡ [])
    ⊎ (validate_pskd (on_joiner_request compute_joiner_id (compute_joiner_id 3) enabled) ≡ ok tt)
on_joiner_request_checked_example =
    on_joiner_request_checked compute_joiner_id (compute_joiner_id 3)
      (enables (created empty_app refl) willing (joiner 3))
