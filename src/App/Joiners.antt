-- ===== src/App/Joiners.antt =====
-- The joiners of CommissionerApp in src/app/commissioner_app.cpp: enabling and disabling them, their
-- steering data and ports, and what the commissioner is told when one of them asks to join. The id of a
-- joiner is a hash of its EUI-64, computed by third-party code: a parameter.
pub mod Lookup
pub mod Enabled
pub mod Disabled
pub mod Reachable
mod Tests
use ot_commissioner.Common.{
  ℕ, Bool, true, false, ◌&&◌, ◌||◌, not, List, [], ◌∷◌, length, Option, none, some, Result, ok, err,
  died, ErrorCode, ◌>>=◌, ◌>>◌, verify, has_flag, set_flag, clear_flag, if◌then◌else◌, ◌==◌, leb,
  ltb, not_found, invalid_args, invalid_state, already_exists,
}
use ot_commissioner.Coap.Client.Exchange.{is_token_equal}
use ot_commissioner.Steering.{add_joiner}
use ot_commissioner.Dataset.Commissioner.{
  CommissionerDataset, session_id_bit, border_agent_locator_bit, steering_data_bit,
  ae_steering_data_bit, nmkp_steering_data_bit, joiner_udp_port_bit, ae_udp_port_bit,
  nmkp_udp_port_bit,
}
use ot_commissioner.App.{
  App, Environment, Call, JoinerType, mesh_cop, ae, nmkp, JoinerInfo, JoinerEntry, after_set,
  when_active,
}
use ot_commissioner.App.Merge.{merge_commissioner}

unfoldable pub is_type : JoinerType → JoinerType → Bool
is_type mesh_cop mesh_cop = true
is_type ae ae = true
is_type nmkp nmkp = true
is_type _ _ = false

-- `ValidatePSKd`: digits and capital letters, but for I, O, Q and Z.
abbrev pub min_credential_length : ℕ
min_credential_length = 6

abbrev pub max_credential_length : ℕ
max_credential_length = 32

unfoldable pub is_credential_char : ℕ → Bool
is_credential_char c =
    (leb 48 c && leb c 57)
    || (leb 65 c && leb c 90 && not (c == 73) && not (c == 79) && not (c == 81) && not (c == 90))

unfoldable pub validate_chars : List ℕ → Result (Unit {0})
validate_chars [] = ok tt
validate_chars (c ∷ chars) = verify (is_credential_char c) invalid_args >> validate_chars chars

unfoldable pub validate_pskd : List ℕ → Result (Unit {0})
validate_pskd pskd = do
  verify (leb min_credential_length (length pskd) && leb (length pskd) max_credential_length)
      invalid_args
  validate_chars pskd

-- The steering data for a type of joiners, its flag, and what assigning to it changes.
unfoldable pub steering_bit : JoinerType → ℕ
steering_bit mesh_cop = steering_data_bit
steering_bit ae = ae_steering_data_bit
steering_bit nmkp = nmkp_steering_data_bit

unfoldable pub steering_data_of : JoinerType → CommissionerDataset → List ℕ
steering_data_of mesh_cop d = d.steering_data
steering_data_of ae d = d.ae_steering_data
steering_data_of nmkp d = d.nmkp_steering_data

unfoldable pub assign_steering_data :
    JoinerType → List ℕ → CommissionerDataset → CommissionerDataset
assign_steering_data mesh_cop value d = record d { steering_data = value }
assign_steering_data ae value d = record d { ae_steering_data = value }
assign_steering_data nmkp value d = record d { nmkp_steering_data = value }

unfoldable pub set_steering_data : JoinerType → List ℕ → CommissionerDataset → CommissionerDataset
set_steering_data type value d =
    let flags = set_flag d.present_flags (steering_bit type) in
    assign_steering_data type value (record d { present_flags = flags })

unfoldable pub get_steering_data : Environment → JoinerType → App → Call (List ℕ)
get_steering_data env type app = when_active env app (
  verify (has_flag app.commissioner_dataset.present_flags (steering_bit type)) not_found
      >> ok (steering_data_of type app.commissioner_dataset),
  app,
)

unfoldable pub port_bit : JoinerType → ℕ
port_bit mesh_cop = joiner_udp_port_bit
port_bit ae = ae_udp_port_bit
port_bit nmkp = nmkp_udp_port_bit

unfoldable pub port_of : JoinerType → CommissionerDataset → ℕ
port_of mesh_cop d = d.joiner_udp_port
port_of ae d = d.ae_udp_port
port_of nmkp d = d.nmkp_udp_port

unfoldable pub assign_port : JoinerType → ℕ → CommissionerDataset → CommissionerDataset
assign_port mesh_cop value d = record d { joiner_udp_port = value }
assign_port ae value d = record d { ae_udp_port = value }
assign_port nmkp value d = record d { nmkp_udp_port = value }

unfoldable pub set_port : JoinerType → ℕ → CommissionerDataset → CommissionerDataset
set_port type value d =
    let flags = set_flag d.present_flags (port_bit type) in
    assign_port type value (record d { present_flags = flags })

unfoldable pub get_joiner_udp_port : Environment → JoinerType → App → Call ℕ
get_joiner_udp_port env type app = when_active env app (
  verify (has_flag app.commissioner_dataset.present_flags (port_bit type)) not_found
      >> ok (port_of type app.commissioner_dataset),
  app,
)

-- What is sent of the Commissioner Dataset: not the session id and not the locator.
unfoldable pub sendable : CommissionerDataset → CommissionerDataset
sendable d = record d {
  present_flags = clear_flag (clear_flag d.present_flags session_id_bit) border_agent_locator_bit;
}

-- The map of joiners. No operation depends on its order.
unfoldable pub is_key : JoinerType → List ℕ → JoinerEntry → Bool
is_key type id entry = is_type entry.info.type type && is_token_equal entry.id id

unfoldable pub find_joiner : JoinerType → List ℕ → List JoinerEntry → Option JoinerInfo
find_joiner type id [] = none
find_joiner type id (entry ∷ joiners) =
    if is_key type id entry then some entry.info else find_joiner type id joiners

unfoldable pub has_joiner : JoinerType → List ℕ → List JoinerEntry → Bool
has_joiner type id joiners = elim (find_joiner type id joiners) [ none ↦ false | some info ↦ true ]

unfoldable pub emplace_joiner : JoinerEntry → List JoinerEntry → List JoinerEntry
emplace_joiner entry joiners =
    if has_joiner entry.info.type entry.id joiners then joiners else entry ∷ joiners

unfoldable pub erase_joiner : JoinerType → List ℕ → List JoinerEntry → List JoinerEntry
erase_joiner type id [] = []
erase_joiner type id (entry ∷ joiners) =
    if is_key type id entry then joiners else entry ∷ erase_joiner type id joiners

unfoldable pub erase_all_joiners : JoinerType → List JoinerEntry → List JoinerEntry
erase_all_joiners type [] = []
erase_all_joiners type (entry ∷ joiners) =
    let rest = erase_all_joiners type joiners in
    if is_type entry.info.type type then rest else entry ∷ rest

-- The end of each operation: the dataset is sent, and kept with the joiners if it was taken.
unfoldable pub commit :
    Environment
    → Result CommissionerDataset
    → (List JoinerEntry → List JoinerEntry)
    → App
    → Call (Unit {0})
commit env (ok dataset) update app =
    after_set (env.set_commissioner_dataset dataset)
      (record app {
        commissioner_dataset = merge_commissioner app.commissioner_dataset dataset;
        joiners = update app.joiners;
      })
      app
commit env (err error) update app = (err error, app)
commit env died update app = (died, app)

unfoldable pub check_pskd : JoinerType → List ℕ → Result (Unit {0})
check_pskd mesh_cop pskd = validate_pskd pskd
check_pskd _ pskd = ok tt

unfoldable pub set_joiner_udp_port : Environment → JoinerType → ℕ → App → Call (Unit {0})
set_joiner_udp_port env type port app =
    commit env
      (do
        verify env.is_active invalid_state
        ok (set_port type port (sendable app.commissioner_dataset)))
      (λ joiners. joiners) app

module _ (compute_joiner_id : ℕ → List ℕ) where
  abbrev pub entry_of : JoinerInfo → JoinerEntry
  entry_of info = record { id = compute_joiner_id info.eui64; info = info }

  unfoldable pub enabled_dataset : Environment → JoinerInfo → App → Result CommissionerDataset
  enabled_dataset env info app = do
    check_pskd info.type info.pskd
    verify env.is_active invalid_state
    verify (not (has_joiner info.type (compute_joiner_id info.eui64) app.joiners)) already_exists
    steering_data ←
        add_joiner (steering_data_of info.type app.commissioner_dataset)
          (compute_joiner_id info.eui64)
    ok (set_steering_data info.type steering_data (sendable app.commissioner_dataset))

  unfoldable pub enable_joiner : Environment → JoinerInfo → App → Call (Unit {0})
  enable_joiner env info app =
      commit env (enabled_dataset env info app) (emplace_joiner (entry_of info)) app

  -- The loop of DisableJoiner, with `joinerId`: the id that it adds is that of the joiner to disable.
  unfoldable pub remaining :
      JoinerType → ℕ → List JoinerEntry → List ℕ → List ℕ → Result (List ℕ × List ℕ)
  remaining type eui64 [] steering_data id = ok (steering_data, id)
  remaining type eui64 (entry ∷ joiners) steering_data id =
      let skipped = remaining type eui64 joiners steering_data id in
      let added = do
        next ← add_joiner steering_data (compute_joiner_id eui64)
        remaining type eui64 joiners next (compute_joiner_id eui64)
      in if is_type entry.info.type type && (entry.info.eui64 == eui64) then skipped else added

  unfoldable pub disabled_dataset :
      Environment → JoinerType → ℕ → App → Result (CommissionerDataset × List ℕ)
  disabled_dataset env type eui64 app = do
    verify env.is_active invalid_state
    (steering_data, id) ← remaining type eui64 app.joiners (0 ∷ []) []
    ok (set_steering_data type steering_data (sendable app.commissioner_dataset), id)

  unfoldable pub commit_disabled :
      Environment → JoinerType → Result (CommissionerDataset × List ℕ) → App → Call (Unit {0})
  commit_disabled env type (ok (dataset, id)) app =
      commit env (ok dataset) (erase_joiner type id) app
  commit_disabled env type (err error) app = (err error, app)
  commit_disabled env type died app = (died, app)

  unfoldable pub disable_joiner : Environment → JoinerType → ℕ → App → Call (Unit {0})
  disable_joiner env type eui64 app =
      commit_disabled env type (disabled_dataset env type eui64 app) app

  -- The joiner with the EUI-64 0 stands for all of its type.
  unfoldable pub enable_all_joiners :
      Environment → JoinerType → List ℕ → List ℕ → App → Call (Unit {0})
  enable_all_joiners env type pskd provisioning_url app =
      let info : JoinerInfo = record {
        type = type;
        eui64 = 0;
        pskd = pskd;
        provisioning_url = provisioning_url;
      } in
      commit env
        (do
          check_pskd type pskd
          verify env.is_active invalid_state
          ok (set_steering_data type (0xff ∷ []) (sendable app.commissioner_dataset)))
        (λ joiners. emplace_joiner (entry_of info) (erase_all_joiners type joiners)) app

  unfoldable pub disable_all_joiners : Environment → JoinerType → App → Call (Unit {0})
  disable_all_joiners env type app =
      commit env
        (do
          verify env.is_active invalid_state
          ok (set_steering_data type (0 ∷ []) (sendable app.commissioner_dataset)))
        (erase_all_joiners type) app

  unfoldable pub joiner_or_all :
      JoinerType → List JoinerEntry → Option JoinerInfo → Option JoinerInfo
  joiner_or_all type joiners (some info) = some info
  joiner_or_all type joiners none = find_joiner type (compute_joiner_id 0) joiners

  unfoldable pub get_joiner_info : JoinerType → List ℕ → App → Option JoinerInfo
  get_joiner_info type id app = joiner_or_all type app.joiners (find_joiner type id app.joiners)

  -- `OnJoinerRequest`: no text for a joiner that is not enabled.
  unfoldable pub on_joiner_request : List ℕ → App → List ℕ
  on_joiner_request id app = elim (get_joiner_info mesh_cop id app) [
    | none ↦ []
    | some info ↦ info.pskd
  ]

  unfoldable pub on_joiner_finalize : List ℕ → List ℕ → App → Bool
  on_joiner_finalize id provisioning_url app = elim (get_joiner_info mesh_cop id app) [
    | none ↦ false
    | some info ↦ is_token_equal provisioning_url info.provisioning_url
  ]
