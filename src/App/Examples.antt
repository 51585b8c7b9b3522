-- ===== src/App/Examples.antt =====
-- An application and an environment for the tests.
use ot_commissioner.Common.{true, false, [], none, ok, err, not_found}
use ot_commissioner.Dataset.{ActiveOperationalDataset, PendingOperationalDataset}
use ot_commissioner.Dataset.Commissioner.{default_dataset}
use ot_commissioner.App.{App, Environment, empty_bbr}

abbrev pub fresh : ActiveOperationalDataset
fresh = record {
  active_timestamp = record { seconds = 7; ticks = 0; u = 0 };
  channel = record { page = 0; number = 0 };
  channel_mask = [];
  extended_pan_id = [];
  mesh_local_prefix = [];
  network_master_key = [];
  network_name = [];
  pan_id = 0;
  pskc = [];
  security_policy = record { rotation_time = 0; flags = [] };
  present_flags = 32768;
}

abbrev pub fresh_pending : PendingOperationalDataset
fresh_pending = record {
  active = record fresh { present_flags = 32784 };
  delay_timer = 0;
  pending_timestamp = record { seconds = 7; ticks = 0; u = 0 };
}

abbrev pub willing : Environment
willing = record {
  is_active = true;
  is_ccm_mode = false;
  fresh_active = fresh;
  fresh_pending = fresh_pending;
  petition = none;
  get_active_dataset = λ flags. ok fresh;
  get_pending_dataset = λ flags. ok fresh_pending;
  get_commissioner_dataset = λ flags. ok default_dataset;
  get_bbr_dataset = λ flags. err not_found;
  set_active_dataset = λ d. none;
  set_pending_dataset = λ d. none;
  set_commissioner_dataset = λ d. none;
  set_bbr_dataset = λ d. none;
  set_token = λ t. none;
}

abbrev pub empty_app : App
empty_app = record {
  signed_token = [];
  joiners = [];
  pan_id_conflicts = [];
  energy_reports = [];
  active_dataset = fresh;
  pending_dataset = fresh_pending;
  commissioner_dataset = default_dataset;
  bbr_dataset = empty_bbr;
}
