-- ===== src/App/Joiners/Disabled.antt =====
-- What disabling a joiner with CommissionerApp of src/app/commissioner_app.cpp does. Its loop computes
-- the id of the joiner to disable, where the ids of the others are meant, and the id under which it
-- erases the joiner is the one of that loop.
use ot_commissioner.Common.{
  ℕ, ◌≡◌, refl, subst, arith, Bool, true, false, ◌&&◌, ◌||◌, not, List, [], ◌∷◌, Option, none, some,
  Result, ok, err, died, ErrorCode, All, Ensures, Ensures-ok, >>=-Ensures, guard-Ensures,
  if-Ensures, verify, ◌>>=◌, ◌==◌, invalid_state, has_flag, has_flag-set_flag, either,
  if◌then◌else◌,
}
use ot_commissioner.Bytes.{IsByte}
use ot_commissioner.Coap.Client.Exchange.{is_token_equal}
use ot_commissioner.Steering.{add_joiner}
use ot_commissioner.Steering.Joiners.{Admits, IsSteering, add_joiner-admitted}
use ot_commissioner.Dataset.Commissioner.{CommissionerDataset}
use ot_commissioner.App.{App, Environment, JoinerType, mesh_cop, JoinerInfo, JoinerEntry, after_set}
use ot_commissioner.App.Joiners.{
  is_type, is_key, find_joiner, erase_joiner, sendable, set_steering_data, steering_bit,
  assign_steering_data, remaining, disabled_dataset, commit, commit_disabled, disable_joiner,
}
use ot_commissioner.App.Joiners.Lookup.{committed, after_set-ok}
use ot_commissioner.App.Joiners.Enabled.{merged_steering}

-- Whether an entry is the joiner of a type with an EUI-64, and whether there is another one.
abbrev pub is_joiner : JoinerType → ℕ → JoinerEntry → Bool
is_joiner type eui64 entry = is_type entry.info.type type && (entry.info.eui64 == eui64)

unfoldable pub has_other : JoinerType → ℕ → List JoinerEntry → Bool
has_other type eui64 [] = false
has_other type eui64 (entry ∷ joiners) =
    not (is_joiner type eui64 entry) || has_other type eui64 joiners

other_key :
    (same : Bool) (id : List ℕ) (b : ℕ) (rest : List ℕ)
    → same && is_token_equal id [] ≡ true
    → same && is_token_equal id (b ∷ rest) ≡ false
unfolding is_token_equal
other_key true [] b rest e = refl
other_key true (x ∷ id) b rest e = cc
other_key false id b rest e = refl

or-false : (a b : Bool) → a || b ≡ false → (a ≡ false) × (b ≡ false)
or-false true b e = cc
or-false false b e = (refl, e)

not-false : (b : Bool) → not b ≡ false → b ≡ true
not-false true e = refl
not-false false e = cc

find-erase_empty :
    (type : JoinerType) (b : ℕ) (id : List ℕ) (joiners : List JoinerEntry)
    → find_joiner type (b ∷ id) (erase_joiner type [] joiners) ≡ find_joiner type (b ∷ id) joiners
unfolding find_joiner erase_joiner is_key
find-erase_empty type b id [] = refl
find-erase_empty type b id (entry ∷ joiners) =
    either (λ js. find_joiner type (b ∷ id) js ≡ find_joiner type (b ∷ id) (entry ∷ joiners))
      (is_key type [] entry)
      (λ e. rw (other_key (is_type entry.info.type type) entry.id b id e) refl)
      (λ e.
        either
          (λ (found : Option JoinerInfo). found ≡ (
            if is_key type (b ∷ id) entry
            then some entry.info
            else find_joiner type (b ∷ id) joiners))
          (is_key type (b ∷ id) entry) (λ f. rw f refl)
          (λ f. rw f (find-erase_empty type b id joiners)))

module _ (compute_joiner_id : ℕ → List ℕ) (type : JoinerType) (eui64 : ℕ) where
  remaining_none :
      (joiners : List JoinerEntry) (steering id : List ℕ)
      → has_other type eui64 joiners ≡ false
      → remaining compute_joiner_id type eui64 joiners steering id ≡ ok (steering, id)
  unfolding remaining has_other
  remaining_none [] steering id e = refl
  remaining_none (entry ∷ joiners) steering id e =
      let (same, alone) = or-false (not (is_joiner type eui64 entry)) _ e in
      rw (not-false (is_joiner type eui64 entry) same) (remaining_none joiners steering id alone)

  -- Steering data that admits the joiner to disable.
  abbrev StillAdmits : List ℕ → Type 0
  StillAdmits steering = IsSteering steering × Admits steering (compute_joiner_id eui64)

  adding_StillAdmits :
      (steering : List ℕ)
      → All IsByte steering
      → Ensures StillAdmits (add_joiner steering (compute_joiner_id eui64))
  adding_StillAdmits steering bytes = add_joiner-admitted steering (compute_joiner_id eui64) bytes

  remaining_still :
      (joiners : List JoinerEntry) (steering id : List ℕ)
      → StillAdmits steering
      → Ensures
          (λ out. StillAdmits out.0)
          (remaining compute_joiner_id type eui64 joiners steering id)
  unfolding remaining
  remaining_still [] steering id still = still
  remaining_still (entry ∷ joiners) steering id still =
      if-Ensures (λ out. StillAdmits out.0) (is_joiner type eui64 entry) _ _
        (remaining_still joiners steering id still)
        (>>=-Ensures (λ out. StillAdmits out.0) (add_joiner steering (compute_joiner_id eui64)) _
          (λ next e.
            remaining_still joiners next (compute_joiner_id eui64)
              (Ensures-ok StillAdmits e (adding_StillAdmits steering still.0.0))))

  remaining_other :
      (joiners : List JoinerEntry) (steering id : List ℕ)
      → All IsByte steering
      → has_other type eui64 joiners ≡ true
      → Ensures
          (λ out. StillAdmits out.0)
          (remaining compute_joiner_id type eui64 joiners steering id)
  unfolding remaining has_other
  remaining_other [] steering id bytes other = cc
  remaining_other (entry ∷ joiners) steering id bytes other =
      either (λ r. Ensures (λ (out : List ℕ × List ℕ). StillAdmits out.0) r)
        (is_joiner type eui64 entry)
        (λ same.
          remaining_other joiners steering id bytes
            (subst (λ b. not b || has_other type eui64 joiners ≡ true) same other))
        (λ differs.
          >>=-Ensures (λ out. StillAdmits out.0) (add_joiner steering (compute_joiner_id eui64)) _
            (λ next e.
              remaining_still joiners next (compute_joiner_id eui64)
                (Ensures-ok StillAdmits e (adding_StillAdmits steering bytes))))

module _ (compute_joiner_id : ℕ → List ℕ) (env : Environment) (eui64 : ℕ) (app : App) where
  answered_only :
      (type : JoinerType) (b : ℕ) (rest : List ℕ) (dataset : CommissionerDataset)
      (answer : Option ErrorCode)
      → find_joiner type
          (b ∷ rest)
          (after_set answer (committed dataset (erase_joiner type []) app) app).1.joiners
        ≡ find_joiner type (b ∷ rest) app.joiners
  unfolding after_set committed
  answered_only type b rest dataset none = find-erase_empty type b rest app.joiners
  answered_only type b rest dataset (some error) = refl

  active_only :
      (type : JoinerType) (b : ℕ) (rest : List ℕ) (dataset : CommissionerDataset) (active : Bool)
      → find_joiner type
          (b ∷ rest)
          (commit_disabled compute_joiner_id env type
            (verify active invalid_state >>= λ u. ok (dataset, []))
            app).1.joiners
        ≡ find_joiner type (b ∷ rest) app.joiners
  unfolding commit_disabled commit committed
  active_only type b rest dataset true =
      answered_only type b rest dataset (env.set_commissioner_dataset dataset)
  active_only type b rest dataset false = refl

  -- A joiner that is the only one to be enabled stays enabled when it is disabled: the server still
  -- finds it under its id, whatever is answered; given an id that is not empty.
  pub disable_only_joiner :
      (type : JoinerType) (b : ℕ) (rest : List ℕ)
      → compute_joiner_id eui64 ≡ b ∷ rest
      → has_other type eui64 app.joiners ≡ false
      → find_joiner type
          (compute_joiner_id eui64)
          (disable_joiner compute_joiner_id env type eui64 app).1.joiners
        ≡ find_joiner type (compute_joiner_id eui64) app.joiners
  unfolding disable_joiner disabled_dataset
  disable_only_joiner type b rest id alone =
      rw (id, remaining_none compute_joiner_id type eui64 app.joiners (0 ∷ []) [] alone)
        (active_only type b rest
          (set_steering_data type (0 ∷ []) (sendable app.commissioner_dataset)) env.is_active)

  abbrev Readmits : CommissionerDataset × List ℕ → Type 0
  Readmits (dataset, id) =
      (has_flag dataset.present_flags 8192 ≡ true)
      × Admits dataset.steering_data (compute_joiner_id eui64)

  disabled_dataset-Readmits :
      has_other mesh_cop eui64 app.joiners ≡ true
      → Ensures Readmits (disabled_dataset compute_joiner_id env mesh_cop eui64 app)
  unfolding disabled_dataset set_steering_data assign_steering_data steering_bit
  disabled_dataset-Readmits other =
      let looped = remaining compute_joiner_id mesh_cop eui64 app.joiners (0 ∷ []) [] in
      guard-Ensures Readmits env.is_active invalid_state _ (λ active.
        >>=-Ensures Readmits looped
          (λ out. ok (set_steering_data mesh_cop out.0 (sendable app.commissioner_dataset), out.1))
          (λ out e. (
            has_flag-set_flag 13 13 (sendable app.commissioner_dataset).present_flags,
            (Ensures-ok
                (λ (out : List ℕ × List ℕ). StillAdmits compute_joiner_id mesh_cop eui64 out.0) e
                (remaining_other compute_joiner_id mesh_cop eui64 app.joiners (0 ∷ []) []
                  (omega arith, tt) other)).1,
          )))

  commit_disabled-ok :
      (made : Result (CommissionerDataset × List ℕ))
      → (commit_disabled compute_joiner_id env mesh_cop made app).0 ≡ ok tt
      → (out : CommissionerDataset × List ℕ) × (made ≡ ok out)
        × ((commit_disabled compute_joiner_id env mesh_cop made app).1
            ≡ committed out.0 (erase_joiner mesh_cop out.1) app)
  unfolding commit_disabled commit committed
  commit_disabled-ok (ok (dataset, id)) e =
      ((dataset, id), refl, after_set-ok (env.set_commissioner_dataset dataset) _ app e)
  commit_disabled-ok (err error) e = cc
  commit_disabled-ok died e = cc

  -- A joiner that is disabled without an error while another joiner is enabled is still admitted by
  -- the steering data.
  pub disable_joiner-Admits :
      has_other mesh_cop eui64 app.joiners ≡ true
      → (disable_joiner compute_joiner_id env mesh_cop eui64 app).0 ≡ ok tt
      → Admits
          (disable_joiner compute_joiner_id env mesh_cop eui64
            app).1.commissioner_dataset.steering_data
          (compute_joiner_id eui64)
  unfolding disable_joiner
  disable_joiner-Admits other e =
      let (out, made, end) =
        commit_disabled-ok (disabled_dataset compute_joiner_id env mesh_cop eui64 app) e in
      let (flag, admits) = Ensures-ok Readmits made (disabled_dataset-Readmits other) in
      let (present, same) = merged_steering app.commissioner_dataset out.0 flag in
      rw end (unfold committed in rw same admits)
