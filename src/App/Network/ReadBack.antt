-- ===== src/App/Network/ReadBack.antt =====
-- Reading a field back with CommissionerApp of src/app/commissioner_app.cpp after it was set.
use ot_commissioner.Common.{
  ℕ, ◌^◌, ◌≡◌, refl, ◌∙◌, Bool, true, false, List, Option, none, some, ok, err, ErrorCode,
  invalid_state, not_found, ◌>>◌, verify, has_flag, if◌then◌else◌, any_same, has_flag-set_flag,
}
use ot_commissioner.Dataset.Masks.{ChannelMask}
use ot_commissioner.Dataset.{SecurityPolicy, ActiveOperationalDataset}
use ot_commissioner.Dataset.Pending.{set_present}
use ot_commissioner.App.{App, Environment, Call, after_set, when_active}
use ot_commissioner.App.Merge.{merge_active}
use ot_commissioner.App.Merge.Fields.{has_flag-copy_flags}
use ot_commissioner.App.Merge.Refines.{active_numbers}
use ot_commissioner.App.Network.{
  set_active_dataset, kept_field, get_channel_mask, set_channel_mask, get_extended_pan_id,
  set_extended_pan_id, get_network_name, set_network_name, get_pskc, set_pskc, get_security_policy,
  set_security_policy,
}

abbrev read_field {ℓ} : {A : Type ℓ} → Bool → ℕ → (ActiveOperationalDataset → A) → App → Call A
read_field active mask get app =
    if active
    then (
      verify (has_flag app.active_dataset.present_flags mask) not_found
          >> ok (get app.active_dataset),
      app,
    )
    else (err invalid_state, app)

-- A call that succeeds was made by an active commissioner, and its dataset was taken.
kept_after {ℓ} :
    {A : Type ℓ} (active : Bool) (answer : Option ErrorCode) (next app : App) (mask : ℕ) (value : A)
    (get : ActiveOperationalDataset → A)
    → has_flag next.active_dataset.present_flags mask ≡ true
    → get next.active_dataset ≡ value
    → (if active then after_set answer next app else (err invalid_state, app)).0 ≡ ok tt
    → read_field active mask get
        (if active then after_set answer next app else (err invalid_state, app)).1
      ≡ (ok value, (if active then after_set answer next app else (err invalid_state, app)).1)
unfolding after_set
kept_after true none next app mask value get flag there e = rw (flag, there) refl
kept_after true (some error) next app mask value get flag there e = cc
kept_after false answer next app mask value get flag there e = cc

merged_flag :
    (i : ℕ) (dst src : ActiveOperationalDataset)
    → any_same i active_numbers ≡ true
    → has_flag src.present_flags (2 ^ i) ≡ true
    → has_flag (merge_active dst src).present_flags (2 ^ i) ≡ true
unfolding merge_active
merged_flag i dst src known e =
    has_flag-copy_flags i active_numbers src.present_flags dst.present_flags ∙ rw (known, e) refl

module _ (env : Environment) (app : App) where
  channel_mask_back :
      (value : ChannelMask)
      → (set_channel_mask env value app).0 ≡ ok tt
      → get_channel_mask env (set_channel_mask env value app).1
        ≡ (ok value, (set_channel_mask env value app).1)
  unfolding get_channel_mask set_channel_mask kept_field when_active set_active_dataset
  channel_mask_back value e =
      let dataset = set_present 8192 (record env.fresh_active { channel_mask = value }) in
      let flag = has_flag-set_flag 13 13 env.fresh_active.present_flags in
      kept_after env.is_active (env.set_active_dataset dataset)
        (record app { active_dataset = merge_active app.active_dataset dataset }) app 8192 value
        (λ d. d.channel_mask) (merged_flag 13 app.active_dataset dataset refl flag)
        (unfold merge_active in rw flag refl) e

  extended_pan_id_back :
      (value : List ℕ)
      → (set_extended_pan_id env value app).0 ≡ ok tt
      → get_extended_pan_id env (set_extended_pan_id env value app).1
        ≡ (ok value, (set_extended_pan_id env value app).1)
  unfolding get_extended_pan_id set_extended_pan_id kept_field when_active set_active_dataset
  extended_pan_id_back value e =
      let dataset = set_present 4096 (record env.fresh_active { extended_pan_id = value }) in
      let flag = has_flag-set_flag 12 12 env.fresh_active.present_flags in
      kept_after env.is_active (env.set_active_dataset dataset)
        (record app { active_dataset = merge_active app.active_dataset dataset }) app 4096 value
        (λ d. d.extended_pan_id) (merged_flag 12 app.active_dataset dataset refl flag)
        (unfold merge_active in rw flag refl) e

  network_name_back :
      (value : List ℕ)
      → (set_network_name env value app).0 ≡ ok tt
      → get_network_name env (set_network_name env value app).1
        ≡ (ok value, (set_network_name env value app).1)
  unfolding get_network_name set_network_name kept_field when_active set_active_dataset
  network_name_back value e =
      let dataset = set_present 512 (record env.fresh_active { network_name = value }) in
      let flag = has_flag-set_flag 9 9 env.fresh_active.present_flags in
      kept_after env.is_active (env.set_active_dataset dataset)
        (record app { active_dataset = merge_active app.active_dataset dataset }) app 512 value
        (λ d. d.network_name) (merged_flag 9 app.active_dataset dataset refl flag)
        (unfold merge_active in rw flag refl) e

  pskc_back :
      (value : List ℕ)
      → (set_pskc env value app).0 ≡ ok tt
      → get_pskc env (set_pskc env value app).1 ≡ (ok value, (set_pskc env value app).1)
  unfolding get_pskc set_pskc kept_field when_active set_active_dataset
  pskc_back value e =
      let dataset = set_present 128 (record env.fresh_active { pskc = value }) in
      let flag = has_flag-set_flag 7 7 env.fresh_active.present_flags in
      kept_after env.is_active (env.set_active_dataset dataset)
        (record app { active_dataset = merge_active app.active_dataset dataset }) app 128 value
        (λ d. d.pskc) (merged_flag 7 app.active_dataset dataset refl flag)
        (unfold merge_active in rw flag refl) e

  security_policy_back :
      (value : SecurityPolicy)
      → (set_security_policy env value app).0 ≡ ok tt
      → get_security_policy env (set_security_policy env value app).1
        ≡ (ok value, (set_security_policy env value app).1)
  unfolding get_security_policy set_security_policy kept_field when_active set_active_dataset
  security_policy_back value e =
      let dataset = set_present 64 (record env.fresh_active { security_policy = value }) in
      let flag = has_flag-set_flag 6 6 env.fresh_active.present_flags in
      kept_after env.is_active (env.set_active_dataset dataset)
        (record app { active_dataset = merge_active app.active_dataset dataset }) app 64 value
        (λ d. d.security_policy) (merged_flag 6 app.active_dataset dataset refl flag)
        (unfold merge_active in rw flag refl) e

  -- A field of the active dataset that was set, without an error, is read back: each of the channel
  -- mask, the extended PAN ID, the network name, the PSKc and the security policy.
  pub get-set_active_field :
      (mask : ChannelMask) (pan_id name pskc : List ℕ) (policy : SecurityPolicy)
      → (set_channel_mask env mask app).0 ≡ ok tt
      → (set_extended_pan_id env pan_id app).0 ≡ ok tt
      → (set_network_name env name app).0 ≡ ok tt
      → (set_pskc env pskc app).0 ≡ ok tt
      → (set_security_policy env policy app).0 ≡ ok tt
      → (get_channel_mask env (set_channel_mask env mask app).1
          ≡ (ok mask, (set_channel_mask env mask app).1))
        × (get_extended_pan_id env (set_extended_pan_id env pan_id app).1
            ≡ (ok pan_id, (set_extended_pan_id env pan_id app).1))
        × (get_network_name env (set_network_name env name app).1
            ≡ (ok name, (set_network_name env name app).1))
        × (get_pskc env (set_pskc env pskc app).1 ≡ (ok pskc, (set_pskc env pskc app).1))
        × (get_security_policy env (set_security_policy env policy app).1
            ≡ (ok policy, (set_security_policy env policy app).1))
  get-set_active_field mask pan_id name pskc policy e1 e2 e3 e4 e5 = (
    channel_mask_back mask e1,
    extended_pan_id_back pan_id e2,
    network_name_back name e3,
    pskc_back pskc e4,
    security_policy_back policy e5,
  )
