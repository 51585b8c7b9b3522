-- ===== src/Relay.antt =====
-- The relay of joiners: HandleRlyRx and HandleJoinerSessionTimer of src/library/commissioner_impl.cpp, and
-- src/library/joiner_session.hpp, src/library/joiner_session.cpp. DTLS is third-party code behind
-- src/library/dtls.cpp: the state that it leaves a session in is an argument, or a step. A time is a number
-- of milliseconds.
pub mod Timer
pub mod Sessions
pub mod Messages
pub mod RoundTrip
mod Tests
use ot_commissioner.Common.{
  ℕ, ◌+◌, ◌*◌, Bool, true, false, not, List, [], ◌∷◌, Option, none, some, Result, ok, err, died,
  ErrorCode, ◌>>=◌, ◌>>◌, verify, toggle_flag, if◌then◌else◌, ltb, leb, ◌==◌, rejected, bad_format,
  invalid_state, no_bytes,
}
use ot_commissioner.Bytes.{encode, decode}
use ot_commissioner.Coap.Client.Exchange.{is_token_equal}
use ot_commissioner.Tlv.Types
use ot_commissioner.Tlv.{
  Tlv, TlvSet, mesh_cop, no_tlvs, get_tlv_set, empty_tlv, state_accept, state_reject,
}
use ot_commissioner.Tlv.Message.{append_tlv, append_tlvs}
use ot_commissioner.Commissioner.{required}

pub data DtlsState : Type 0 where
  dtls_open dtls_connecting dtls_connected dtls_disconnected : DtlsState

pub record JoinerSession : Type 0 where
  pub joiner_id : List ℕ
  pub joiner_pskd : List ℕ
  pub joiner_udp_port : ℕ
  pub joiner_router_locator : ℕ
  pub expiration_time : ℕ
  pub dtls_state : DtlsState

-- `mJoinerSessions`, and the time at which `mJoinerSessionTimer` fires, if it runs.
pub record Relay : Type 0 where
  pub sessions : List JoinerSession
  pub timer : Option ℕ

-- `Connect` and `RecvJoinerDtlsRecords` of a session.
pub data RelayEvent : Type 0 where
  connects : List ℕ → RelayEvent
  records : List ℕ → List ℕ → RelayEvent

abbrev pub local_external_addr_mask : ℕ
local_external_addr_mask = 2

-- kDtlsHandshakeTimeoutMax and kJoinerTimeout, in milliseconds.
abbrev pub session_lifetime : ℕ
session_lifetime = 60 * 1000 + 20 * 1000

-- `joinerId[0] ^= kLocalExternalAddrMask`: out of bounds where there is no byte.
unfoldable pub flip_local : List ℕ → Result (List ℕ)
flip_local [] = died
flip_local (b ∷ id) = ok (toggle_flag b local_external_addr_mask ∷ id)

-- What HandleRlyRx reads of a message.
pub record RlyRx : Type 0 where
  pub udp_port : ℕ
  pub router_locator : ℕ
  pub id : List ℕ
  pub dtls_records : List ℕ

unfoldable pub read_fields : TlvSet → Result RlyRx
read_fields set = do
  port_tlv ← required (set Types.joiner_udp_port)
  port ← decode 2 port_tlv.value
  locator_tlv ← required (set Types.joiner_router_locator)
  locator ← decode 2 locator_tlv.value
  iid_tlv ← required (set Types.joiner_iid)
  dtls_tlv ← required (set Types.joiner_dtls_encapsulation)
  id ← flip_local iid_tlv.value
  ok (record { udp_port = port; router_locator = locator; id = id; dtls_records = dtls_tlv.value })

unfoldable pub read_rly_rx : List ℕ → Result RlyRx
read_rly_rx payload = do set ← get_tlv_set mesh_cop no_tlvs payload; read_fields set

unfoldable pub find_session : List ℕ → List JoinerSession → Option JoinerSession
find_session id [] = none
find_session id (s ∷ sessions) =
    if is_token_equal s.joiner_id id then some s else find_session id sessions

unfoldable pub erase_session : List ℕ → List JoinerSession → List JoinerSession
erase_session id [] = []
erase_session id (s ∷ sessions) =
    if is_token_equal s.joiner_id id then sessions else s ∷ erase_session id sessions

-- `Disabled`
unfoldable pub session_disabled : JoinerSession → Bool
session_disabled s = elim s.dtls_state [ dtls_open ↦ true | _ ↦ false ]

unfoldable pub drop_disabled : List ℕ → List JoinerSession → List JoinerSession
drop_disabled id sessions = elim (find_session id sessions) [
  | none ↦ sessions
  | some s ↦ if session_disabled s then erase_session id sessions else sessions
]

-- A new session, with the state that `Connect` leaves it in.
unfoldable pub new_session : ℕ → DtlsState → List ℕ → RlyRx → JoinerSession
new_session now state pskd rx = record {
  joiner_id = rx.id;
  joiner_pskd = pskd;
  joiner_udp_port = rx.udp_port;
  joiner_router_locator = rx.router_locator;
  expiration_time = now + session_lifetime;
  dtls_state = state;
}

module _ (on_joiner_request : List ℕ → List ℕ) where
  -- What is done where no session is found: `local_addr` is the error of GetLocalAddr, if there is one.
  unfoldable pub connect_session :
      ℕ → DtlsState → Option ErrorCode → RlyRx → Relay → List RelayEvent × Relay
  connect_session now state (some error) rx relay = ([], relay)
  connect_session now state none rx relay = (
    connects rx.id ∷ records rx.id rx.dtls_records ∷ [],
    record relay {
      sessions = new_session now state (on_joiner_request rx.id) rx ∷ relay.sessions;
      timer = some (now + session_lifetime);
    },
  )

  unfoldable pub admit_joiner :
      ℕ → DtlsState → Option ErrorCode → RlyRx → Relay → List RelayEvent × Relay
  admit_joiner now state local_addr rx relay =
      if no_bytes (on_joiner_request rx.id)
      then ([], relay)
      else connect_session now state local_addr rx relay

  unfoldable pub relay_records :
      ℕ → DtlsState → Option ErrorCode → RlyRx → Relay → List RelayEvent × Relay
  relay_records now state local_addr rx relay =
      let kept = record relay { sessions = drop_disabled rx.id relay.sessions } in
      elim (find_session rx.id kept.sessions) [
        | none ↦ admit_joiner now state local_addr rx kept
        | some s ↦ (records rx.id rx.dtls_records ∷ [], kept)
      ]

  -- `HandleRlyRx`: an error is logged.
  unfoldable pub after_read :
      ℕ → DtlsState → Option ErrorCode → Relay → Result RlyRx → Result (List RelayEvent × Relay)
  after_read now state local_addr relay (ok rx) = ok (relay_records now state local_addr rx relay)
  after_read now state local_addr relay (err error) = ok ([], relay)
  after_read now state local_addr relay died = died

  unfoldable pub handle_rly_rx :
      ℕ → DtlsState → Option ErrorCode → List ℕ → Relay → Result (List RelayEvent × Relay)
  handle_rly_rx now state local_addr payload relay =
      after_read now state local_addr relay (read_rly_rx payload)

-- `nextShot`, with `hasNextShot`.
unfoldable pub earlier : ℕ → Option ℕ → Option ℕ
earlier time none = some time
earlier time (some next) = if ltb time next then some time else some next

-- The loop of HandleJoinerSessionTimer: what is left, and the next shot.
unfoldable pub expire_loop : ℕ → List JoinerSession → Option ℕ → List JoinerSession × Option ℕ
expire_loop now [] next = ([], next)
expire_loop now (s ∷ sessions) next =
    let removed = expire_loop now sessions next in
    let (rest, shot) = expire_loop now sessions (earlier s.expiration_time next) in
    if leb s.expiration_time now then removed else (s ∷ rest, shot)

-- The timer is single-shot: it does not run when it has fired.
unfoldable pub handle_joiner_session_timer : ℕ → Relay → Relay
handle_joiner_session_timer now relay =
    let (sessions, next) = expire_loop now relay.sessions none in
    record { sessions = sessions; timer = next }

-- `SendRlyTx`: the payload of the message; `kek` is the key that DTLS has, empty if it has none.
unfoldable pub append_kek : Bool → List ℕ → List ℕ → Result (List ℕ)
append_kek false kek payload = ok payload
append_kek true kek payload = do
  verify (not (no_bytes kek)) invalid_state
  append_tlv payload (empty_tlv Types.joiner_router_kek kek)

unfoldable pub send_rly_tx : JoinerSession → List ℕ → Bool → List ℕ → Result (List ℕ)
send_rly_tx s dtls_message include_kek kek = do
  iid ← flip_local s.joiner_id
  payload ← append_tlvs [] (
      empty_tlv Types.joiner_udp_port (encode 2 [] s.joiner_udp_port)
      ∷ empty_tlv Types.joiner_router_locator (encode 2 [] s.joiner_router_locator)
      ∷ empty_tlv Types.joiner_iid iid
      ∷ empty_tlv Types.joiner_dtls_encapsulation dtls_message
      ∷ [])
  append_kek include_kek kek payload

-- What HandleJoinFin asks the application, and the vendor's data where there is a provisioning URL.
pub record JoinFin : Type 0 where
  pub vendor_name : List ℕ
  pub vendor_model : List ℕ
  pub vendor_sw_version : List ℕ
  pub vendor_stack_version : List ℕ
  pub provisioning_url : List ℕ
  pub vendor_data : List ℕ

unfoldable pub read_provisioning : Option Tlv → Option Tlv → Result (List ℕ × List ℕ)
read_provisioning none vendor_data = ok ([], [])
read_provisioning (some url) vendor_data = do tlv ← required vendor_data; ok (url.value, tlv.value)

unfoldable pub read_join_fin : List ℕ → Result JoinFin
read_join_fin payload = do
  set ← get_tlv_set mesh_cop no_tlvs payload
  state ← required (set Types.state)
  name ← required (set Types.vendor_name)
  model ← required (set Types.vendor_model)
  sw_version ← required (set Types.vendor_sw_version)
  stack_version ← required (set Types.vendor_stack_version)
  (url, data') ← read_provisioning (set Types.provisioning_url) (set Types.vendor_data)
  ok (record {
    vendor_name = name.value;
    vendor_model = model.value;
    vendor_sw_version = sw_version.value;
    vendor_stack_version = stack_version.value;
    provisioning_url = url;
    vendor_data = data';
  })

-- `SendJoinFinResponse`, the payload.
unfoldable pub join_fin_response : Bool → Result (List ℕ)
join_fin_response accept =
    append_tlv [] (empty_tlv Types.state ((if accept then state_accept else state_reject) ∷ []))

-- `HandleJoinFin`: what does not read is not accepted; `on_joiner_finalize` is the answer of the
-- application.
unfoldable pub after_join_fin : (JoinFin → Bool) → Result JoinFin → Result (List ℕ)
after_join_fin on_joiner_finalize (ok fin) = join_fin_response (on_joiner_finalize fin)
after_join_fin on_joiner_finalize (err error) = join_fin_response false
after_join_fin on_joiner_finalize died = died

unfoldable pub handle_join_fin : (JoinFin → Bool) → List ℕ → Result (List ℕ)
handle_join_fin on_joiner_finalize payload =
    after_join_fin on_joiner_finalize (read_join_fin payload)
