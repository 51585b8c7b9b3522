-- ===== src/App/Network.antt =====
-- The methods of CommissionerApp in src/app/commissioner_app.cpp that read and write the fields of the
-- datasets that it keeps.
pub mod ReadBack
use ot_commissioner.Common.{
  ℕ, ◌%◌, ◌^◌, Bool, List, Option, none, some, Result, ok, err, died, ErrorCode, ◌>>=◌, ◌>>◌,
  verify, verify_or_die, has_flag, set_flag, if◌then◌else◌, not_found, bad_format, rejected, ◌==◌,
}
use ot_commissioner.Dataset.Timestamps.{Timestamp}
use ot_commissioner.Dataset.Masks.{ChannelMask}
use ot_commissioner.Dataset.Commissioner.{CommissionerDataset, border_agent_locator_bit}
use ot_commissioner.Dataset.{
  Channel, SecurityPolicy, ActiveOperationalDataset, PendingOperationalDataset, BbrDataset,
}
use ot_commissioner.Dataset.Active.Fields.{
  active_timestamp_bit, channel_bit, channel_mask_bit, extended_pan_id_bit, mesh_local_prefix_bit,
  network_master_key_bit, network_name_bit, pan_id_bit, pskc_bit, security_policy_bit,
}
use ot_commissioner.Dataset.Pending.{delay_timer_bit, set_present}
use ot_commissioner.Dataset.Requests.{
  tri_hostname_bit, registrar_hostname_bit, registrar_ipv6_addr_bit,
}
use ot_commissioner.App.{App, Environment, Call, after_set, when_active, all_fields, empty_bbr}
use ot_commissioner.App.Merge.{merge_active, merge_pending, merge_bbr, merge_commissioner}

-- The methods for whole datasets.
unfoldable pub set_active_dataset : Environment → ActiveOperationalDataset → App → Call (Unit {0})
set_active_dataset env dataset app =
    after_set (env.set_active_dataset dataset)
      (record app { active_dataset = merge_active app.active_dataset dataset }) app

unfoldable pub set_pending_dataset : Environment → PendingOperationalDataset → App → Call (Unit {0})
set_pending_dataset env dataset app =
    after_set (env.set_pending_dataset dataset)
      (record app { pending_dataset = merge_pending app.pending_dataset dataset }) app

unfoldable pub set_commissioner_dataset : Environment → CommissionerDataset → App → Call (Unit {0})
set_commissioner_dataset env dataset app =
    after_set (env.set_commissioner_dataset dataset)
      (record app { commissioner_dataset = merge_commissioner app.commissioner_dataset dataset })
      app

unfoldable pub set_bbr_dataset : Environment → BbrDataset → App → Call (Unit {0})
set_bbr_dataset env dataset app =
    after_set (env.set_bbr_dataset dataset)
      (record app { bbr_dataset = merge_bbr app.bbr_dataset dataset }) app

-- What is got is merged.
unfoldable pub got {ℓ} : {D : Type ℓ} → Result D → (D → App) → App → Call D
got (ok dataset) keep app = (ok dataset, keep dataset)
got (err error) keep app = (err error, app)
got died keep app = (died, app)

unfoldable pub get_active_dataset : Environment → ℕ → App → Call ActiveOperationalDataset
get_active_dataset env flags app =
    got (env.get_active_dataset flags)
      (λ dataset. record app { active_dataset = merge_active app.active_dataset dataset }) app

unfoldable pub get_pending_dataset : Environment → ℕ → App → Call PendingOperationalDataset
get_pending_dataset env flags app =
    got (env.get_pending_dataset flags)
      (λ dataset. record app { pending_dataset = merge_pending app.pending_dataset dataset }) app

unfoldable pub get_bbr_dataset : Environment → ℕ → App → Call BbrDataset
get_bbr_dataset env flags app =
    got (env.get_bbr_dataset flags)
      (λ dataset. record app { bbr_dataset = merge_bbr app.bbr_dataset dataset }) app

-- A field of the active dataset that is kept, and one of the dataset that is got first.
unfoldable pub kept_field {ℓ} : {A : Type ℓ} → Environment → ℕ → A → App → Call A
kept_field env mask value app =
    when_active env app
      (verify (has_flag app.active_dataset.present_flags mask) not_found >> ok value, app)

unfoldable pub pulled_field {ℓ} :
    {A : Type ℓ} → Environment → (ActiveOperationalDataset → Result A) → App → Call A
pulled_field env read app = when_active env app (elim (env.get_active_dataset all_fields) [
  | ok dataset ↦ (read dataset, record app { active_dataset = dataset })
  | err error ↦ (err error, app)
  | died ↦ (died, app)
])

-- The fields that are set in the pending dataset, with the delay.
unfoldable pub delayed_by : ℕ → PendingOperationalDataset → PendingOperationalDataset
delayed_by delay dataset = record dataset {
  active = set_present delay_timer_bit dataset.active;
  delay_timer = delay % 2 ^ 32;
}

unfoldable pub get_active_timestamp : Environment → App → Call Timestamp
get_active_timestamp env app = when_active env app (
  verify_or_die (has_flag app.active_dataset.present_flags active_timestamp_bit)
      >> ok app.active_dataset.active_timestamp,
  app,
)

unfoldable pub get_channel : Environment → App → Call Channel
get_channel env app =
    pulled_field env (λ d. verify_or_die (has_flag d.present_flags channel_bit) >> ok d.channel) app

unfoldable pub set_channel : Environment → Channel → ℕ → App → Call (Unit {0})
set_channel env channel delay app =
    let fresh = env.fresh_pending in
    when_active env app (
      set_pending_dataset env
        (delayed_by delay (record fresh {
          active = set_present channel_bit (record fresh.active { channel = channel });
        }))
        app)

unfoldable pub get_channel_mask : Environment → App → Call (ChannelMask)
get_channel_mask env app = kept_field env channel_mask_bit app.active_dataset.channel_mask app

unfoldable pub set_channel_mask : Environment → ChannelMask → App → Call (Unit {0})
set_channel_mask env channel_mask app = when_active env app (
    set_active_dataset env
      (set_present channel_mask_bit (record env.fresh_active { channel_mask = channel_mask })) app)

unfoldable pub get_extended_pan_id : Environment → App → Call (List ℕ)
get_extended_pan_id env app =
    kept_field env extended_pan_id_bit app.active_dataset.extended_pan_id app

unfoldable pub set_extended_pan_id : Environment → List ℕ → App → Call (Unit {0})
set_extended_pan_id env extended_pan_id app = when_active env app (
    set_active_dataset env
      (set_present extended_pan_id_bit
        (record env.fresh_active { extended_pan_id = extended_pan_id }))
      app)

unfoldable pub get_network_name : Environment → App → Call (List ℕ)
get_network_name env app = kept_field env network_name_bit app.active_dataset.network_name app

unfoldable pub set_network_name : Environment → List ℕ → App → Call (Unit {0})
set_network_name env network_name app = when_active env app (
    set_active_dataset env
      (set_present network_name_bit (record env.fresh_active { network_name = network_name })) app)

unfoldable pub get_pskc : Environment → App → Call (List ℕ)
get_pskc env app = kept_field env pskc_bit app.active_dataset.pskc app

unfoldable pub set_pskc : Environment → List ℕ → App → Call (Unit {0})
set_pskc env pskc app =
    when_active env app
      (set_active_dataset env (set_present pskc_bit (record env.fresh_active { pskc = pskc })) app)

unfoldable pub get_security_policy : Environment → App → Call (SecurityPolicy)
get_security_policy env app =
    kept_field env security_policy_bit app.active_dataset.security_policy app

unfoldable pub set_security_policy : Environment → SecurityPolicy → App → Call (Unit {0})
set_security_policy env security_policy app = when_active env app (
    set_active_dataset env
      (set_present security_policy_bit
        (record env.fresh_active { security_policy = security_policy }))
      app)

-- The text of a prefix is read and written with third-party code for addresses.
unfoldable pub get_mesh_local_prefix :
    (List ℕ → Result (List ℕ)) → Environment → App → Call (List ℕ)
get_mesh_local_prefix prefix_to_string env app =
    pulled_field env
      (λ d. do
        verify (has_flag d.present_flags mesh_local_prefix_bit) not_found
        prefix_to_string d.mesh_local_prefix)
      app

unfoldable pub set_read_prefix : Environment → Result (List ℕ) → ℕ → App → Call (Unit {0})
set_read_prefix env (ok prefix) delay app =
    let fresh = env.fresh_pending in
    set_pending_dataset env
      (delayed_by delay (record fresh {
        active =
            set_present mesh_local_prefix_bit (record fresh.active { mesh_local_prefix = prefix });
      }))
      app
set_read_prefix env (err error) delay app = (err error, app)
set_read_prefix env died delay app = (died, app)

unfoldable pub set_mesh_local_prefix :
    (List ℕ → Result (List ℕ)) → Environment → List ℕ → ℕ → App → Call (Unit {0})
set_mesh_local_prefix prefix_from_string env text delay app =
    when_active env app (set_read_prefix env (prefix_from_string text) delay app)

unfoldable pub get_network_master_key : Environment → App → Call (List ℕ)
get_network_master_key env app =
    pulled_field env
      (λ d.
        verify (has_flag d.present_flags network_master_key_bit) not_found
        >> ok d.network_master_key)
      app

unfoldable pub set_network_master_key : Environment → List ℕ → ℕ → App → Call (Unit {0})
set_network_master_key env network_master_key delay app =
    let fresh = env.fresh_pending in
    when_active env app (
      set_pending_dataset env
        (delayed_by delay (record fresh {
          active =
              set_present network_master_key_bit
                (record fresh.active { network_master_key = network_master_key });
        }))
        app)

unfoldable pub get_pan_id : Environment → App → Call (ℕ)
get_pan_id env app =
    pulled_field env (λ d. verify (has_flag d.present_flags pan_id_bit) not_found >> ok d.pan_id)
      app

unfoldable pub set_pan_id : Environment → ℕ → ℕ → App → Call (Unit {0})
set_pan_id env pan_id delay app =
    let fresh = env.fresh_pending in
    when_active env app (
      set_pending_dataset env
        (delayed_by delay (record fresh {
          active = set_present pan_id_bit (record fresh.active { pan_id = pan_id });
        }))
        app)

-- The BBR Dataset may be read and written by a commissioner that is not active.
unfoldable pub bbr_field {ℓ} : {A : Type ℓ} → ℕ → A → App → Result A
bbr_field mask value app =
    verify (has_flag app.bbr_dataset.present_flags mask) not_found >> ok value

unfoldable pub get_tri_hostname : App → Result (List ℕ)
get_tri_hostname app = bbr_field tri_hostname_bit app.bbr_dataset.tri_hostname app

unfoldable pub get_registrar_hostname : App → Result (List ℕ)
get_registrar_hostname app = bbr_field registrar_hostname_bit app.bbr_dataset.registrar_hostname app

unfoldable pub get_registrar_ipv6_addr : App → Result (List ℕ)
get_registrar_ipv6_addr app =
    bbr_field registrar_ipv6_addr_bit app.bbr_dataset.registrar_ipv6_addr app

unfoldable pub set_tri_hostname : Environment → List ℕ → App → Call (Unit {0})
set_tri_hostname env hostname app =
    set_bbr_dataset env
      (record empty_bbr { tri_hostname = hostname; present_flags = set_flag 0 tri_hostname_bit })
      app

-- The registrar's address must be known after its name was set: both are merged then.
unfoldable pub merge_registrar : BbrDataset → Result BbrDataset → App → Call (Unit {0})
merge_registrar named (ok addressed) app =
    if has_flag addressed.present_flags registrar_ipv6_addr_bit
    then (ok tt, record app { bbr_dataset = merge_bbr (merge_bbr app.bbr_dataset named) addressed })
    else (err bad_format, app)
merge_registrar named (err error) app = (err error, app)
merge_registrar named died app = (died, app)

unfoldable pub set_registrar_hostname : Environment → List ℕ → App → Call (Unit {0})
set_registrar_hostname env hostname app =
    let named = record empty_bbr {
      registrar_hostname = hostname;
      present_flags = set_flag 0 registrar_hostname_bit;
    } in
    elim (env.set_bbr_dataset named) [
      | none ↦ merge_registrar named (env.get_bbr_dataset registrar_ipv6_addr_bit) app
      | some error ↦ (err error, app)
    ]

-- `GetBorderAgentLocator`
unfoldable pub get_border_agent_locator : Environment → App → Call ℕ
get_border_agent_locator env app = when_active env app (
  verify_or_die (has_flag app.commissioner_dataset.present_flags border_agent_locator_bit)
      >> ok app.commissioner_dataset.border_agent_locator,
  app,
)

-- Methods that ask an active commissioner, and keep nothing.
unfoldable pub get_session_id : Environment → ℕ → App → Call ℕ
get_session_id env session_id app = when_active env app (ok session_id, app)

unfoldable pub command : Environment → Result (Unit {0}) → App → Call (Unit {0})
command env answer app = when_active env app (answer, app)

abbrev pub mlr_status_success : ℕ
mlr_status_success = 0

unfoldable pub register_multicast_listener : Environment → Result ℕ → App → Call (Unit {0})
register_multicast_listener env answer app =
    when_active env app (do status ← answer; verify (status == mlr_status_success) rejected, app)
