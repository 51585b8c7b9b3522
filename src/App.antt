-- ===== src/App.antt =====
-- The class CommissionerApp of src/app/commissioner_app.hpp and src/app/commissioner_app.cpp: what it
-- keeps of the network, and how it starts, stops and is told of changes. The commissioner that it works
-- with answers over the network: what its calls return is an argument, the environment.
pub mod Merge
pub mod Network
pub mod Joiners
pub mod Examples
mod Tests
use ot_commissioner.Common.{
  ℕ, Bool, true, false, List, [], ◌∷◌, Option, none, some, Result, ok, err, died, ErrorCode, ◌>>=◌,
  ◌>>◌, set_flag, if◌then◌else◌, ◌==◌, invalid_state,
}
use ot_commissioner.Coap.Client.Exchange.{is_token_equal}
use ot_commissioner.Dataset.{ActiveOperationalDataset, PendingOperationalDataset, BbrDataset}
use ot_commissioner.Dataset.Masks.{ChannelMask}
use ot_commissioner.Dataset.Commissioner.{
  CommissionerDataset, default_dataset, joiner_udp_port_bit, ae_udp_port_bit, nmkp_udp_port_bit,
}
use Merge.{merge_commissioner}

pub data JoinerType : Type 0 where
  mesh_cop ae nmkp : JoinerType

pub record JoinerInfo : Type 0 where
  pub type : JoinerType
  pub eui64 : ℕ
  pub pskd : List ℕ
  pub provisioning_url : List ℕ

-- An entry of `std::map<JoinerKey, JoinerInfo>`; the type of the key is that of the joiner.
pub record JoinerEntry : Type 0 where
  pub id : List ℕ
  pub info : JoinerInfo

pub record EnergyReport : Type 0 where
  pub channel_mask : ChannelMask
  pub energy_list : List ℕ

pub record App : Type 0 where
  pub signed_token : List ℕ
  pub joiners : List JoinerEntry
  pub pan_id_conflicts : List (ℕ × ChannelMask)
  pub energy_reports : List (List ℕ × EnergyReport)
  pub active_dataset : ActiveOperationalDataset
  pub pending_dataset : PendingOperationalDataset
  pub commissioner_dataset : CommissionerDataset
  pub bbr_dataset : BbrDataset

-- What `mCommissioner` answers to a call, and what the constructors of the datasets, which read the
-- clock, leave in them. A call that sets a dataset answers with its error, if there is one.
pub record Environment : Type 0 where
  pub is_active : Bool
  pub is_ccm_mode : Bool
  pub fresh_active : ActiveOperationalDataset
  pub fresh_pending : PendingOperationalDataset
  pub petition : Option ErrorCode
  pub get_active_dataset : ℕ → Result ActiveOperationalDataset
  pub get_pending_dataset : ℕ → Result PendingOperationalDataset
  pub get_commissioner_dataset : ℕ → Result CommissionerDataset
  pub get_bbr_dataset : ℕ → Result BbrDataset
  pub set_active_dataset : ActiveOperationalDataset → Option ErrorCode
  pub set_pending_dataset : PendingOperationalDataset → Option ErrorCode
  pub set_commissioner_dataset : CommissionerDataset → Option ErrorCode
  pub set_bbr_dataset : BbrDataset → Option ErrorCode
  pub set_token : List ℕ → Option ErrorCode

-- What a method returns, and the state that it leaves.
abbrev pub Call {ℓ} : Type ℓ → Type ℓ
Call A = Result A × App

abbrev pub result {ℓ} : {A : Type ℓ} → Call A → Result A
result call = call.0

-- `SuccessOrExit(error = ..)`, with the state afterwards where there was none.
unfoldable pub after_set : Option ErrorCode → App → App → Call (Unit {0})
after_set none next app = (ok tt, next)
after_set (some error) next app = (err error, app)

abbrev pub check : Option ErrorCode → Result (Unit {0})
check none = ok tt
check (some error) = err error

-- `VerifyOrExit(IsActive(), ..)`
unfoldable pub when_active {ℓ} : {A : Type ℓ} → Environment → App → Call A → Call A
when_active env app call = if env.is_active then call else (err invalid_state, app)

abbrev pub all_fields : ℕ
all_fields = 0xffff

abbrev pub empty_bbr : BbrDataset
empty_bbr = record {
  tri_hostname = [];
  registrar_hostname = [];
  registrar_ipv6_addr = [];
  present_flags = 0;
}

-- `MakeDefaultCommissionerDataset`
unfoldable pub default_commissioner : Environment → CommissionerDataset
default_commissioner env =
    let dataset = record default_dataset {
      joiner_udp_port = 1000;
      present_flags = set_flag 0 joiner_udp_port_bit;
    } in
    if env.is_ccm_mode
    then record dataset {
      ae_udp_port = 1001;
      nmkp_udp_port = 1002;
      present_flags = set_flag (set_flag dataset.present_flags ae_udp_port_bit) nmkp_udp_port_bit;
    }
    else dataset

-- `Stop`, after Resign.
unfoldable pub stop : Environment → App → App
stop env app = record app {
  joiners = [];
  pan_id_conflicts = [];
  energy_reports = [];
  active_dataset = env.fresh_active;
  pending_dataset = env.fresh_pending;
  commissioner_dataset = default_commissioner env;
  bbr_dataset = empty_bbr;
}

-- `SyncNetworkData`: the Commissioner Dataset is merged before the BBR Dataset is asked for.
abbrev Fetched : Type 0
Fetched = ActiveOperationalDataset × PendingOperationalDataset × CommissionerDataset

unfoldable pub fetch_network_data : Environment → App → Result Fetched
fetch_network_data env app = do
  active ← env.get_active_dataset all_fields
  pending ← env.get_pending_dataset all_fields
  check (env.set_commissioner_dataset app.commissioner_dataset)
  commissioner ← env.get_commissioner_dataset all_fields
  ok (active, pending, commissioner)

unfoldable pub keep_network_data : Fetched → Result BbrDataset → App → Call (Unit {0})
keep_network_data (active, pending, commissioner) (ok bbr) app =
    (ok tt, record app { active_dataset = active; pending_dataset = pending; bbr_dataset = bbr })
keep_network_data fetched (err error) app = (err error, app)
keep_network_data fetched died app = (died, app)

unfoldable pub sync_fetched : Environment → Result Fetched → App → Call (Unit {0})
sync_fetched env (ok (active, pending, commissioner)) app =
    keep_network_data (active, pending, commissioner)
      (if env.is_ccm_mode then env.get_bbr_dataset all_fields else ok app.bbr_dataset)
      (record app {
        commissioner_dataset = merge_commissioner app.commissioner_dataset commissioner;
      })
sync_fetched env (err error) app = (err error, app)
sync_fetched env died app = (died, app)

unfoldable pub sync_network_data : Environment → App → Call (Unit {0})
sync_network_data env app = sync_fetched env (fetch_network_data env app) app

-- `Start`: what an error leaves is stopped, if the commissioner is active.
unfoldable pub stop_on_error : Environment → Call (Unit {0}) → Call (Unit {0})
stop_on_error env (ok value, app) = (ok value, app)
stop_on_error env (err error, app) = (err error, if env.is_active then stop env app else app)
stop_on_error env (died, app) = (died, app)

unfoldable pub start : Environment → App → Call (Unit {0})
start env app =
    stop_on_error env
      (elim env.petition [ none ↦ sync_network_data env app | some error ↦ (err error, app) ])

-- `OnPanIdConflict` and `OnEnergyReport`, which keep the last report of each. The text of an address is
-- read by third-party code: nothing, where it is none.
unfoldable pub put_conflict : ℕ → ChannelMask → List (ℕ × ChannelMask) → List (ℕ × ChannelMask)
put_conflict pan_id mask [] = (pan_id, mask) ∷ []
put_conflict pan_id mask ((p, m) ∷ conflicts) =
    if p == pan_id then (pan_id, mask) ∷ conflicts else (p, m) ∷ put_conflict pan_id mask conflicts

unfoldable pub on_pan_id_conflict : ChannelMask → ℕ → App → App
on_pan_id_conflict mask pan_id app = record app {
  pan_id_conflicts = put_conflict pan_id mask app.pan_id_conflicts;
}

unfoldable pub has_conflict : ℕ → List (ℕ × ChannelMask) → Bool
has_conflict pan_id [] = false
has_conflict pan_id ((p, m) ∷ conflicts) =
    if p == pan_id then true else has_conflict pan_id conflicts

unfoldable pub has_pan_id_conflict : ℕ → App → Bool
has_pan_id_conflict pan_id app = has_conflict pan_id app.pan_id_conflicts

unfoldable pub put_report :
    List ℕ → EnergyReport → List (List ℕ × EnergyReport) → List (List ℕ × EnergyReport)
put_report addr report [] = (addr, report) ∷ []
put_report addr report ((a, r) ∷ reports) =
    if is_token_equal a addr
    then (addr, report) ∷ reports
    else (a, r) ∷ put_report addr report reports

unfoldable pub on_energy_report : Option (List ℕ) → EnergyReport → App → Result App
on_energy_report none report app = died
on_energy_report (some addr) report app =
    ok (record app { energy_reports = put_report addr report app.energy_reports })

unfoldable pub find_report : List ℕ → List (List ℕ × EnergyReport) → Option EnergyReport
find_report addr [] = none
find_report addr ((a, r) ∷ reports) =
    if is_token_equal a addr then some r else find_report addr reports

unfoldable pub get_energy_report : List ℕ → App → Option EnergyReport
get_energy_report addr app = find_report addr app.energy_reports

-- `OnDatasetChanged`, when both responses have come.
unfoldable pub on_dataset_changed :
    Result ActiveOperationalDataset → Result PendingOperationalDataset → App → App
on_dataset_changed (ok active) (ok pending) app = record app {
  active_dataset = active;
  pending_dataset = pending;
}
on_dataset_changed (ok active) _ app = record app { active_dataset = active }
on_dataset_changed _ (ok pending) app = record app { pending_dataset = pending }
on_dataset_changed _ _ app = app

unfoldable pub set_token : Environment → List ℕ → App → Call (Unit {0})
set_token env token app = after_set (env.set_token token) (record app { signed_token = token }) app
