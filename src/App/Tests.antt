-- ===== src/App/Tests.antt =====
-- The datasets of the application, and the fields that it sets, at concrete inputs.
use ot_commissioner.Common.{◌≡◌, refl, [], ◌∷◌, ok, err, timeout}
use ot_commissioner.Dataset.{ActiveOperationalDataset, SecurityPolicy}
use ot_commissioner.Dataset.Commissioner.{CommissionerDataset, default_dataset}
use ot_commissioner.Dataset.Flags.{copy_flag}
use ot_commissioner.App.{
  App, empty_bbr, when_active, after_set, start, sync_network_data, fetch_network_data,
  sync_fetched, stop_on_error,
}
use ot_commissioner.App.Examples.{fresh, fresh_pending, willing, empty_app}
use ot_commissioner.App.Merge.{
  merge_active, merge_pending, merge_bbr, merge_commissioner, copy_flags,
}
use ot_commissioner.App.Merge.Refines.{
  active_fields, override_active, merge_active_refines, pending_fields, override_pending,
  bbr_fields, override_bbr, merge_pending_refines,
}
use ot_commissioner.App.Merge.Commissioner.{
  commissioner_fields, replace_fields, merge_commissioner_refines,
}
use ot_commissioner.App.Network.{
  set_active_dataset, set_channel_mask, set_extended_pan_id, set_network_name, set_pskc,
  set_security_policy, get_channel_mask, get_extended_pan_id, get_network_name, get_pskc,
  get_security_policy,
}
use ot_commissioner.App.Network.ReadBack.{get-set_active_field}

abbrev app : App
app = record empty_app { active_dataset = record fresh { pan_id = 0x1234; present_flags = 33024 } }

abbrev named : ActiveOperationalDataset
named = record fresh { network_name = 0x61 ∷ []; present_flags = 33280 }

-- The name is set, and the PAN ID stays.
name_merged :
    merge_active app.active_dataset named
    ≡ record fresh { network_name = 0x61 ∷ []; pan_id = 0x1234; present_flags = 33536 }
unfolding merge_active copy_flags copy_flag
name_merged = refl

-- An error of the last request stops an active commissioner.
sync_failed :
    (start (record willing { get_pending_dataset = λ flags. err timeout }) app).0 ≡ err timeout
unfolding start stop_on_error sync_network_data sync_fetched fetch_network_data
sync_failed = refl

merge_active_refines_example :
    active_fields (merge_active app.active_dataset named)
    ≡ override_active (active_fields named) (active_fields app.active_dataset)
merge_active_refines_example = merge_active_refines app.active_dataset named

merge_pending_refines_example :
    (pending_fields (merge_pending fresh_pending fresh_pending)
      ≡ override_pending (pending_fields fresh_pending) (pending_fields fresh_pending))
    × (bbr_fields (merge_bbr empty_bbr empty_bbr)
        ≡ override_bbr (bbr_fields empty_bbr) (bbr_fields empty_bbr))
merge_pending_refines_example =
    merge_pending_refines fresh_pending fresh_pending empty_bbr empty_bbr

abbrev ported : CommissionerDataset
ported = record default_dataset { joiner_udp_port = 1000; present_flags = 1024 }

merge_commissioner_refines_example :
    commissioner_fields (merge_commissioner ported default_dataset)
    ≡ replace_fields (commissioner_fields default_dataset) (commissioner_fields ported)
merge_commissioner_refines_example = merge_commissioner_refines ported default_dataset

abbrev policy : SecurityPolicy
policy = record { rotation_time = 672; flags = 0xff ∷ [] }

get-set_active_field_example :
    (get_channel_mask willing (set_channel_mask willing [] app).1
      ≡ (ok [], (set_channel_mask willing [] app).1))
    × (get_extended_pan_id willing (set_extended_pan_id willing (1 ∷ []) app).1
        ≡ (ok (1 ∷ []), (set_extended_pan_id willing (1 ∷ []) app).1))
    × (get_network_name willing (set_network_name willing (0x61 ∷ []) app).1
        ≡ (ok (0x61 ∷ []), (set_network_name willing (0x61 ∷ []) app).1))
    × (get_pskc willing (set_pskc willing (2 ∷ []) app).1
        ≡ (ok (2 ∷ []), (set_pskc willing (2 ∷ []) app).1))
    × (get_security_policy willing (set_security_policy willing policy app).1
        ≡ (ok policy, (set_security_policy willing policy app).1))
unfolding set_channel_mask set_extended_pan_id set_network_name set_pskc set_security_policy
    when_active set_active_dataset after_set
get-set_active_field_example =
    get-set_active_field willing app [] (1 ∷ []) (0x61 ∷ []) (2 ∷ []) policy refl refl refl refl
      refl
