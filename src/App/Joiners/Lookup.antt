-- ===== src/App/Joiners/Lookup.antt =====
-- The map of joiners of CommissionerApp in src/app/commissioner_app.cpp: what is found in it.
use ot_commissioner.Common.{
  ℕ, ◌≡◌, refl, Bool, true, false, List, [], ◌∷◌, Option, none, some, ==_iff, All, either, Result,
  ok, err, died, ErrorCode, verify,
}
use ot_commissioner.Coap.Client.Exchange.{is_token_equal}
use ot_commissioner.App.{App, Environment, JoinerType, mesh_cop, ae, nmkp, JoinerEntry, after_set}
use ot_commissioner.App.Merge.{merge_commissioner}
use ot_commissioner.Dataset.Commissioner.{CommissionerDataset}
use ot_commissioner.App.Joiners.{
  is_type, is_key, find_joiner, has_joiner, emplace_joiner, erase_joiner, erase_all_joiners, commit,
}

pub is_type_self : (type : JoinerType) → is_type type type ≡ true
unfolding is_type
is_type_self mesh_cop = refl
is_type_self ae = refl
is_type_self nmkp = refl

pub is_token_equal_self : (id : List ℕ) → is_token_equal id id ≡ true
unfolding is_token_equal
is_token_equal_self [] = refl
is_token_equal_self (b ∷ id) = rw ((==_iff b b).1 refl, is_token_equal_self id) refl

pub find-emplace_joiner :
    (entry : JoinerEntry) (joiners : List JoinerEntry)
    → has_joiner entry.info.type entry.id joiners ≡ false
    → find_joiner entry.info.type entry.id (emplace_joiner entry joiners) ≡ some entry.info
unfolding emplace_joiner find_joiner is_key
find-emplace_joiner entry joiners fresh =
    rw (fresh, is_type_self entry.info.type, is_token_equal_self entry.id) refl

pub All-erase_joiner :
    (P : JoinerEntry → Type 0) (type : JoinerType) (id : List ℕ) (joiners : List JoinerEntry)
    → All P joiners
    → All P (erase_joiner type id joiners)
unfolding erase_joiner
All-erase_joiner P type id [] all = tt
All-erase_joiner P type id (entry ∷ joiners) (h, all) =
    either (All P) (is_key type id entry) (λ e. all)
      (λ e. (h, All-erase_joiner P type id joiners all))

pub All-erase_all_joiners :
    (P : JoinerEntry → Type 0) (type : JoinerType) (joiners : List JoinerEntry)
    → All P joiners
    → All P (erase_all_joiners type joiners)
unfolding erase_all_joiners
All-erase_all_joiners P type [] all = tt
All-erase_all_joiners P type (entry ∷ joiners) (h, all) =
    either (All P) (is_type entry.info.type type) (λ e. All-erase_all_joiners P type joiners all)
      (λ e. (h, All-erase_all_joiners P type joiners all))

pub All-emplace_joiner :
    (P : JoinerEntry → Type 0) (entry : JoinerEntry) (joiners : List JoinerEntry)
    → P entry
    → All P joiners
    → All P (emplace_joiner entry joiners)
unfolding emplace_joiner
All-emplace_joiner P entry joiners h all =
    either (All P) (has_joiner entry.info.type entry.id joiners) (λ e. all) (λ e. (h, all))

-- The state after a dataset was sent and taken.
unfoldable pub committed : CommissionerDataset → (List JoinerEntry → List JoinerEntry) → App → App
committed dataset update app = record app {
  commissioner_dataset = merge_commissioner app.commissioner_dataset dataset;
  joiners = update app.joiners;
}

pub after_set-ok :
    (answer : Option ErrorCode) (next app : App)
    → (after_set answer next app).0 ≡ ok tt
    → (after_set answer next app).1 ≡ next
unfolding after_set
after_set-ok none next app e = refl
after_set-ok (some error) next app e = cc

pub commit-ok :
    (env : Environment) (made : Result CommissionerDataset)
    (update : List JoinerEntry → List JoinerEntry) (app : App)
    → (commit env made update app).0 ≡ ok tt
    → (dataset : CommissionerDataset) × (made ≡ ok dataset)
      × ((commit env made update app).1 ≡ committed dataset update app)
unfolding commit committed
commit-ok env (ok dataset) update app e =
    (dataset, refl, after_set-ok (env.set_commissioner_dataset dataset) _ app e)
commit-ok env (err error) update app e = cc
commit-ok env died update app e = cc

pub verify-true : (b : Bool) (code : ErrorCode) (v : Unit {0}) → verify b code ≡ ok v → b ≡ true
verify-true true code v e = refl
verify-true false code v e = cc
