-- ===== src/App/Joiners/Reachable.antt =====
-- The joiners of CommissionerApp in src/app/commissioner_app.cpp, after any sequence of its operations.
use ot_commissioner.Common.{
  ℕ, ◌≡◌, refl, Bool, true, List, [], ◌∷◌, Option, none, some, Result, ok, err, died, ErrorCode,
  All, ◌⊎◌, inl, inr, either, Ensures, >>=-Ensures, ◌&&◌,
}
use ot_commissioner.Coap.Client.Exchange.{is_token_equal}
use ot_commissioner.Dataset.Commissioner.{CommissionerDataset}
use ot_commissioner.App.{
  App, Environment, JoinerType, mesh_cop, ae, nmkp, JoinerInfo, JoinerEntry, after_set, stop,
}
use ot_commissioner.App.Joiners.{
  is_type, is_key, find_joiner, validate_pskd, check_pskd, emplace_joiner, erase_joiner,
  erase_all_joiners, commit, entry_of, enabled_dataset, enable_joiner, commit_disabled,
  disable_joiner, enable_all_joiners, disable_all_joiners, get_joiner_info, joiner_or_all,
  on_joiner_request,
}
use ot_commissioner.App.Joiners.Lookup.{All-erase_joiner, All-erase_all_joiners, All-emplace_joiner}

-- The PSKd of a joiner is one that ValidatePSKd lets pass, if it is a joiner with a PSKd.
abbrev pub IsChecked : JoinerInfo → Type 0
IsChecked info = check_pskd info.type info.pskd ≡ ok tt

abbrev pub AreChecked : List JoinerEntry → Type 0
AreChecked joiners = All (λ entry. IsChecked entry.info) joiners

answered-AreChecked :
    (answer : Option ErrorCode) (next app : App)
    → AreChecked app.joiners
    → AreChecked next.joiners
    → AreChecked (after_set answer next app).1.joiners
unfolding after_set
answered-AreChecked none next app before after = after
answered-AreChecked (some error) next app before after = before

commit-AreChecked :
    (env : Environment) (made : Result CommissionerDataset)
    (update : List JoinerEntry → List JoinerEntry) (app : App)
    → AreChecked app.joiners
    → Ensures (λ dataset. AreChecked (update app.joiners)) made
    → AreChecked (commit env made update app).1.joiners
unfolding commit
commit-AreChecked env (ok dataset) update app checked next =
    answered-AreChecked (env.set_commissioner_dataset dataset) _ app checked next
commit-AreChecked env (err error) update app checked next = checked
commit-AreChecked env died update app checked next = checked

Ensures-any {ℓ κ} : {A : Type ℓ} {P : Type κ} (r : Result A) → P → Ensures (λ a. P) r
Ensures-any (ok a) p = p
Ensures-any (err e) p = tt
Ensures-any died p = tt

-- What is found under an id has a PSKd that ValidatePSKd lets pass.
abbrev IsOffered : Option JoinerInfo → Type 0
IsOffered none = Unit {0}
IsOffered (some info) = validate_pskd info.pskd ≡ ok tt

offered :
    (type : JoinerType) (b : Bool) (pskd : List ℕ)
    → is_type type mesh_cop && b ≡ true
    → check_pskd type pskd ≡ ok tt
    → validate_pskd pskd ≡ ok tt
unfolding is_type check_pskd
offered mesh_cop b pskd e h = h
offered ae b pskd e h = cc
offered nmkp b pskd e h = cc

module _ (compute_joiner_id : ℕ → List ℕ) where
  -- Any operation of the application, and any that does not touch the joiners.
  pub data Operates : App → Type 0 where
    created : (app : App) → app.joiners ≡ [] → Operates app
    enables :
        {app : App}
        → Operates app
        → (env : Environment) (info : JoinerInfo)
        → Operates (enable_joiner compute_joiner_id env info app).1
    disables :
        {app : App}
        → Operates app
        → (env : Environment) (type : JoinerType) (eui64 : ℕ)
        → Operates (disable_joiner compute_joiner_id env type eui64 app).1
    enables_all :
        {app : App}
        → Operates app
        → (env : Environment) (type : JoinerType) (pskd provisioning_url : List ℕ)
        → Operates (enable_all_joiners compute_joiner_id env type pskd provisioning_url app).1
    disables_all :
        {app : App}
        → Operates app
        → (env : Environment) (type : JoinerType)
        → Operates (disable_all_joiners compute_joiner_id env type app).1
    stops : {app : App} → Operates app → (env : Environment) → Operates (stop env app)
    keeps : {app : App} → Operates app → (next : App) → next.joiners ≡ app.joiners → Operates next

  enable-AreChecked :
      (env : Environment) (info : JoinerInfo) (app : App)
      → AreChecked app.joiners
      → AreChecked (enable_joiner compute_joiner_id env info app).1.joiners
  unfolding enable_joiner enabled_dataset
  enable-AreChecked env info app checked =
      commit-AreChecked env (enabled_dataset compute_joiner_id env info app)
        (emplace_joiner (entry_of compute_joiner_id info)) app checked
        (>>=-Ensures
          (λ dataset. AreChecked (emplace_joiner (entry_of compute_joiner_id info) app.joiners))
          (check_pskd info.type info.pskd) _
          (λ v valid.
            Ensures-any _
              (All-emplace_joiner (λ entry. IsChecked entry.info) _ app.joiners valid checked)))

  disabled-AreChecked :
      (env : Environment) (type : JoinerType) (made : Result (CommissionerDataset × List ℕ))
      (app : App)
      → AreChecked app.joiners
      → AreChecked (commit_disabled compute_joiner_id env type made app).1.joiners
  unfolding commit_disabled
  disabled-AreChecked env type (ok (dataset, id)) app checked =
      commit-AreChecked env (ok dataset) (erase_joiner type id) app checked
        (All-erase_joiner (λ entry. IsChecked entry.info) type id app.joiners checked)
  disabled-AreChecked env type (err error) app checked = checked
  disabled-AreChecked env type died app checked = checked

  Operates-AreChecked : {app : App} → Operates app → AreChecked app.joiners
  unfolding disable_joiner enable_all_joiners disable_all_joiners stop
  Operates-AreChecked (created app e) = rw e tt
  Operates-AreChecked (enables {app} run env info) =
      enable-AreChecked env info app (Operates-AreChecked run)
  Operates-AreChecked (disables {app} run env type eui64) =
      disabled-AreChecked env type _ app (Operates-AreChecked run)
  Operates-AreChecked (enables_all {app} run env type pskd url) =
      let before = Operates-AreChecked run in
      let all = λ (entry : JoinerEntry). IsChecked entry.info in
      commit-AreChecked env _ _ app before (
        >>=-Ensures _ (check_pskd type pskd) _ (λ v valid. Ensures-any _ (
          All-emplace_joiner all _ (erase_all_joiners type app.joiners) valid
            (All-erase_all_joiners all type app.joiners before))))
  Operates-AreChecked (disables_all {app} run env type) =
      let before = Operates-AreChecked run in
      commit-AreChecked env _ _ app before (
        Ensures-any _
          (All-erase_all_joiners (λ entry. IsChecked entry.info) type app.joiners before))
  Operates-AreChecked (stops run env) = tt
  Operates-AreChecked (keeps run next e) = rw e (Operates-AreChecked run)

  found-IsOffered :
      (id : List ℕ) (joiners : List JoinerEntry)
      → AreChecked joiners
      → IsOffered (find_joiner mesh_cop id joiners)
  unfolding find_joiner is_key
  found-IsOffered id [] checked = tt
  found-IsOffered id (entry ∷ joiners) (h, checked) =
      either IsOffered (is_key mesh_cop id entry)
        (λ e. offered entry.info.type (is_token_equal entry.id id) entry.info.pskd e h)
        (λ e. found-IsOffered id joiners checked)

  joiner_or_all-IsOffered :
      (joiners : List JoinerEntry) (found : Option JoinerInfo)
      → AreChecked joiners
      → IsOffered found
      → IsOffered (joiner_or_all compute_joiner_id mesh_cop joiners found)
  unfolding joiner_or_all
  joiner_or_all-IsOffered joiners none checked h =
      found-IsOffered (compute_joiner_id 0) joiners checked
  joiner_or_all-IsOffered joiners (some info) checked h = h

  offered_pskd :
      (found : Option JoinerInfo)
      → IsOffered found
      → (elim found as (λ o. List ℕ) [ none ↦ [] | some info ↦ info.pskd ] ≡ [])
        ⊎ (validate_pskd (elim found as (λ o. List ℕ) [ none ↦ [] | some info ↦ info.pskd ])
            ≡ ok tt)
  offered_pskd none h = inl refl
  offered_pskd (some info) h = inr h

  -- Whatever joiners were enabled and disabled before, with any answers: the server that asks for the
  -- PSKd of a joiner gets nothing, or a PSKd that ValidatePSKd lets pass.
  pub on_joiner_request_checked :
      {app : App} (id : List ℕ)
      → Operates app
      → (on_joiner_request compute_joiner_id id app ≡ [])
        ⊎ (validate_pskd (on_joiner_request compute_joiner_id id app) ≡ ok tt)
  unfolding on_joiner_request get_joiner_info
  on_joiner_request_checked {app} id run =
      let checked = Operates-AreChecked run in
      offered_pskd _
        (joiner_or_all-IsOffered app.joiners _ checked (found-IsOffered id app.joiners checked))
