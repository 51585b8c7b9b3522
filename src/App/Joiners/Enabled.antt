-- ===== src/App/Joiners/Enabled.antt =====
-- What enabling a joiner with CommissionerApp of src/app/commissioner_app.cpp does.
use ot_commissioner.Common.{
  ℕ, ◌≡◌, refl, ◌∙◌, ap, Bool, true, false, not, List, [], ◌∷◌, some, ok, All, Ensures, Ensures-ok,
  >>=-Ensures, guard-Ensures, verify, ◌>>◌, ◌>>=◌, invalid_state, already_exists, none, has_flag,
  has_flag-set_flag,
}
use ot_commissioner.Bytes.{IsByte}
use ot_commissioner.Coap.Client.Exchange.{is_token_equal}
use ot_commissioner.Steering.{add_joiner}
use ot_commissioner.Steering.Joiners.{Admits, IsSteering, add_joiner-admitted}
use ot_commissioner.Dataset.Commissioner.{CommissionerDataset}
use ot_commissioner.App.{App, Environment, mesh_cop, JoinerInfo}
use ot_commissioner.App.Merge.{copy_flags, merge_commissioner}
use ot_commissioner.App.Merge.Fields.{has_flag-sync_flags}
use ot_commissioner.App.Merge.Commissioner.{synced_numbers}
use ot_commissioner.App.Joiners.{
  validate_pskd, check_pskd, has_joiner, find_joiner, emplace_joiner, sendable, set_steering_data,
  steering_bit, assign_steering_data, steering_data_of, enabled_dataset, enable_joiner, entry_of,
  get_joiner_info, joiner_or_all, on_joiner_request, on_joiner_finalize,
}
use ot_commissioner.App.Joiners.Lookup.{find-emplace_joiner, committed, commit-ok}

not-true : (b : Bool) → not b ≡ true → b ≡ false
not-true true e = cc
not-true false e = refl

module _ (compute_joiner_id : ℕ → List ℕ) (id : List ℕ) (info : JoinerInfo) (app : App)
    (found : find_joiner mesh_cop id app.joiners ≡ some info) where
  request_found : on_joiner_request compute_joiner_id id app ≡ info.pskd
  unfolding on_joiner_request get_joiner_info joiner_or_all
  request_found =
      ap
        (λ o. elim (joiner_or_all compute_joiner_id mesh_cop app.joiners o) [
          | none ↦ []
          | some info ↦ info.pskd
        ])
        found

  finalize_found :
      (asked : List ℕ)
      → on_joiner_finalize compute_joiner_id id asked app
        ≡ is_token_equal asked info.provisioning_url
  unfolding on_joiner_finalize get_joiner_info joiner_or_all
  finalize_found asked =
      ap
        (λ o. elim (joiner_or_all compute_joiner_id mesh_cop app.joiners o) [
          | none ↦ false
          | some info ↦ is_token_equal asked info.provisioning_url
        ])
        found

-- The steering data of the source, if it has any, is the one after a merge.
pub merged_steering :
    (dst src : CommissionerDataset)
    → has_flag src.present_flags 8192 ≡ true
    → (has_flag (merge_commissioner dst src).present_flags 8192 ≡ true)
      × ((merge_commissioner dst src).steering_data ≡ src.steering_data)
unfolding merge_commissioner
merged_steering dst src e =
    let kept = copy_flags (32768 ∷ 16384 ∷ []) src.present_flags dst.present_flags in
    (has_flag-sync_flags 13 synced_numbers src.present_flags kept ∙ e, rw e refl)

module _ (compute_joiner_id : ℕ → List ℕ) (env : Environment) (eui64 : ℕ) (pskd url : List ℕ)
    (app : App) where
  abbrev joiner : JoinerInfo
  joiner = record { type = mesh_cop; eui64 = eui64; pskd = pskd; provisioning_url = url }

  abbrev IsEnabling : CommissionerDataset → Type 0
  IsEnabling dataset =
      (validate_pskd pskd ≡ ok tt)
      × (has_joiner mesh_cop (compute_joiner_id eui64) app.joiners ≡ false)
      × (has_flag dataset.present_flags 8192 ≡ true)
      × Admits dataset.steering_data (compute_joiner_id eui64)

  enabled_dataset-IsEnabling :
      All IsByte app.commissioner_dataset.steering_data
      → Ensures IsEnabling (enabled_dataset compute_joiner_id env joiner app)
  unfolding enabled_dataset check_pskd set_steering_data assign_steering_data steering_bit sendable
      steering_data_of
  enabled_dataset-IsEnabling bytes =
      let id = compute_joiner_id eui64 in
      let adding = do
        steering ← add_joiner app.commissioner_dataset.steering_data id
        ok (set_steering_data mesh_cop steering (sendable app.commissioner_dataset))
      in let fresh = not (has_joiner mesh_cop id app.joiners) in
        >>=-Ensures IsEnabling (validate_pskd pskd) _ (λ v valid.
          guard-Ensures IsEnabling env.is_active invalid_state
            (verify fresh already_exists >> adding)
            (λ active. guard-Ensures IsEnabling fresh already_exists adding (λ is_fresh.
              >>=-Ensures IsEnabling (add_joiner app.commissioner_dataset.steering_data id)
                (λ steering.
                  ok (set_steering_data mesh_cop steering (sendable app.commissioner_dataset)))
                (λ steering added. (
                  valid,
                  not-true (has_joiner mesh_cop id app.joiners) is_fresh,
                  has_flag-set_flag 13 13 (sendable app.commissioner_dataset).present_flags,
                  (Ensures-ok (λ next. IsSteering next × Admits next id) added
                      (add_joiner-admitted app.commissioner_dataset.steering_data id bytes)).1,
                )))))

  -- Enabling a joiner without an error means that its PSKd is valid and that it was not enabled before;
  -- the server then gets its PSKd for its id, its request to finalize is accepted for its
  -- provisioning URL and no other, and the steering data that is kept is present and admits it; given
  -- steering data of bytes.
  pub enable_joiner-Admits :
      All IsByte app.commissioner_dataset.steering_data
      → (enable_joiner compute_joiner_id env joiner app).0 ≡ ok tt
      → let next = (enable_joiner compute_joiner_id env joiner app).1 in
        let id = compute_joiner_id eui64 in
        (validate_pskd pskd ≡ ok tt)
        × (has_joiner mesh_cop id app.joiners ≡ false)
        × (on_joiner_request compute_joiner_id id next ≡ pskd)
        × ((asked : List ℕ)
            → on_joiner_finalize compute_joiner_id id asked next ≡ is_token_equal asked url)
        × (has_flag next.commissioner_dataset.present_flags 8192 ≡ true)
        × Admits next.commissioner_dataset.steering_data id
  unfolding enable_joiner
  enable_joiner-Admits bytes e =
      let id = compute_joiner_id eui64 in
      let entry = entry_of compute_joiner_id joiner in
      let (dataset, made, end) =
        commit-ok env (enabled_dataset compute_joiner_id env joiner app) (emplace_joiner entry) app
          e in
      let (valid, fresh, flag, admits) =
        Ensures-ok IsEnabling made (enabled_dataset-IsEnabling bytes) in
      let next = committed dataset (emplace_joiner entry) app in
      let found : find_joiner mesh_cop id next.joiners ≡ some joiner =
        unfold committed in find-emplace_joiner entry app.joiners fresh in
      let (present, same) : (has_flag next.commissioner_dataset.present_flags 8192 ≡ true)
          × (next.commissioner_dataset.steering_data ≡ dataset.steering_data) =
        unfold committed in merged_steering app.commissioner_dataset dataset flag in
      rw end (
        valid,
        fresh,
        request_found compute_joiner_id id joiner next found,
        finalize_found compute_joiner_id id joiner next found,
        present,
        rw same admits,
      )
