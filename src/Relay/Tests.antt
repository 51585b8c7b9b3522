-- ===== src/Relay/Tests.antt =====
-- Sessions of joiners, at concrete messages and times.
use ot_commissioner.Common.{ℕ, ◌≡◌, refl, List, [], ◌∷◌, none, some, ok, true, false, Yields, arith}
use ot_commissioner.Coap.Client.Exchange.{is_token_equal}
use ot_commissioner.Bytes.{decode, decode_loop}
use ot_commissioner.Commissioner.{required}
use ot_commissioner.Tlv.{
  get_tlv_set, get_tlv_set_loop, deserialize, take_value, keep_valid, is_valid, serialize,
  put_length, is_extended_tlv, insert_tlv, no_tlvs, get_length, scope_rules, take_extended,
}
use ot_commissioner.Tlv.Message.{append_tlv}
use ot_commissioner.Tlv.Length.{find_rule, mesh_cop_rules, allows, thread_rules}
use ot_commissioner.App
use ot_commissioner.App.{after_set, JoinerInfo, JoinerEntry, App}
use ot_commissioner.App.Examples.{willing, empty_app}
use ot_commissioner.App.Joiners.{
  enable_joiner, on_joiner_request, commit, enabled_dataset, check_pskd, validate_pskd,
  validate_chars, is_credential_char, has_joiner, find_joiner, steering_data_of,
}
use ot_commissioner.Steering.{add_joiner, compute_bloom_filter}
use ot_commissioner.App.Joiners.Enabled.{enable_joiner-Admits}
use ot_commissioner.App.Joiners.Reachable.{created, enables}
use ot_commissioner.Relay.{
  DtlsState, send_rly_tx, handle_join_fin, after_join_fin, read_join_fin, join_fin_response,
  after_read, read_rly_rx, read_fields, flip_local, relay_records, admit_joiner, connect_session,
  new_session, session_disabled, JoinerSession, Relay, find_session, erase_session, drop_disabled,
  expire_loop, earlier, handle_joiner_session_timer, handle_rly_rx, records, connects,
}
use ot_commissioner.Relay.Timer.{fires, fires-empty}
use ot_commissioner.Relay.Sessions.{IsRelay, idle, waits, receives}
use ot_commissioner.Relay.Sessions.Invariant.{Relays-IsRelay}
use ot_commissioner.Relay.RoundTrip.{read-send_rly_tx}
use ot_commissioner.Relay.Messages.{handle_rly_rx-Yields}

abbrev id : List ℕ
id = 4 ∷ 1 ∷ 1 ∷ 1 ∷ 1 ∷ 1 ∷ 1 ∷ 1 ∷ []

abbrev pskd : List ℕ
pskd = 65 ∷ 66 ∷ 67 ∷ 68 ∷ 69 ∷ 70 ∷ []

abbrev relayed : List ℕ
relayed =
    18 ∷ 2 ∷ 3 ∷ 232 ∷ 20 ∷ 2 ∷ 4 ∷ 0 ∷ 19 ∷ 8 ∷ 6 ∷ 1 ∷ 1 ∷ 1 ∷ 1 ∷ 1 ∷ 1 ∷ 1 ∷ 17 ∷ 2 ∷ 22 ∷ 254
    ∷ []

abbrev session : ℕ → DtlsState → JoinerSession
session time state = record {
  joiner_id = id;
  joiner_pskd = pskd;
  joiner_udp_port = 1000;
  joiner_router_locator = 1024;
  expiration_time = time;
  dtls_state = state;
}

abbrev other : ℕ → JoinerSession
other time = record (session time DtlsState.dtls_connected) { joiner_id = 9 ∷ [] }

abbrev compute_joiner_id : ℕ → List ℕ
compute_joiner_id eui64 = id

abbrev joiner : JoinerInfo
joiner = record {
  type = ot_commissioner.App.mesh_cop;
  eui64 = 3;
  pskd = pskd;
  provisioning_url = [];
}

abbrev enabled : App
enabled = (enable_joiner compute_joiner_id willing joiner empty_app).1

abbrev idle_relay : Relay
idle_relay = record { sessions = []; timer = none }

abbrev ask : List ℕ → List ℕ
ask joiner_id = pskd

abbrev started : Relay
started = record { sessions = session 80005 DtlsState.dtls_connecting ∷ []; timer = some 80005 }

first_asked :
    (ask : List ℕ → List ℕ)
    → ask id ≡ pskd
    → handle_rly_rx ask 5 DtlsState.dtls_connecting none relayed idle_relay
      ≡ ok (connects id ∷ records id (22 ∷ 254 ∷ []) ∷ [], started)
unfolding handle_rly_rx after_read read_rly_rx get_tlv_set get_tlv_set_loop deserialize take_value
    read_fields required keep_valid is_valid find_rule mesh_cop_rules allows insert_tlv decode
    flip_local relay_records decode_loop is_token_equal admit_joiner connect_session drop_disabled
    erase_session find_session new_session session_disabled thread_rules get_length no_tlvs
    scope_rules take_extended
first_asked ask e = rw e refl

-- A session that DTLS has closed is replaced, in the same call.
closed_session :
    handle_rly_rx ask 5 DtlsState.dtls_connecting none relayed
      (record { sessions = session 9 DtlsState.dtls_open ∷ other 30 ∷ []; timer = some 9 })
    ≡ ok (
      connects id ∷ records id (22 ∷ 254 ∷ []) ∷ [],
      record {
        sessions = session 80005 DtlsState.dtls_connecting ∷ other 30 ∷ [];
        timer = some 80005;
      },
    )
unfolding handle_rly_rx after_read read_rly_rx get_tlv_set get_tlv_set_loop deserialize take_value
    read_fields required keep_valid is_valid find_rule mesh_cop_rules allows insert_tlv decode
    flip_local relay_records decode_loop is_token_equal admit_joiner connect_session drop_disabled
    erase_session find_session new_session session_disabled thread_rules get_length no_tlvs
    scope_rules take_extended
closed_session = refl

two_expire :
    fires 2
      (record { sessions = session 9 DtlsState.dtls_connected ∷ other 30 ∷ []; timer = some 9 })
    ≡ idle_relay
unfolding fires handle_joiner_session_timer expire_loop earlier
two_expire = refl

fires-empty_example :
    (fires 3 (record {
      sessions = session 9 DtlsState.dtls_connected ∷ other 30 ∷ [];
      timer = some 4;
    })).sessions
    ≡ []
fires-empty_example =
    fires-empty
      (record { sessions = session 9 DtlsState.dtls_connected ∷ other 30 ∷ []; timer = some 4 }) 4
      refl

handle_rly_rx-Yields_example :
    Yields (handle_rly_rx ask 5 DtlsState.dtls_connecting none relayed idle_relay)
handle_rly_rx-Yields_example =
    handle_rly_rx-Yields ask 5 DtlsState.dtls_connecting none idle_relay relayed

asked :
    (handle_rly_rx
      (λ i. on_joiner_request compute_joiner_id i enabled)
      5
      DtlsState.dtls_connecting
      none
      relayed
      idle_relay)
    ≡ ok (connects id ∷ records id (22 ∷ 254 ∷ []) ∷ [], started)
unfolding enable_joiner commit enabled_dataset check_pskd validate_pskd validate_chars
    is_credential_char has_joiner find_joiner add_joiner compute_bloom_filter steering_data_of
    after_set
asked =
    first_asked (λ i. on_joiner_request compute_joiner_id i enabled)
      (enable_joiner-Admits compute_joiner_id willing 3 pskd [] empty_app tt refl).2

Relays-IsRelay_example : IsRelay 6 started
Relays-IsRelay_example = Relays-IsRelay compute_joiner_id (
    waits
      (receives (idle 5) enabled (enables (created empty_app refl) willing joiner)
        DtlsState.dtls_connecting none relayed _ asked)
      6 (omega arith))

read-send_rly_tx_example :
    (payload : List ℕ) × (send_rly_tx (session 9 DtlsState.dtls_connected) (22 ∷ 254 ∷ []) false []
      ≡ ok payload)
    × (read_rly_rx payload
        ≡ ok (record {
          udp_port = 1000;
          router_locator = 1024;
          id = id;
          dtls_records = 22 ∷ 254 ∷ [];
        }))
read-send_rly_tx_example =
    read-send_rly_tx (session 9 DtlsState.dtls_connected) (22 ∷ 254 ∷ []) (omega arith)
      (omega arith) refl (omega arith)

-- A JOIN_FIN without the name of the vendor is rejected, and the application is not asked.
no_vendor_name : handle_join_fin (λ fin. true) (10 ∷ 1 ∷ 1 ∷ []) ≡ ok (16 ∷ 1 ∷ 255 ∷ [])
unfolding put_length is_extended_tlv handle_join_fin after_join_fin read_join_fin join_fin_response
    append_tlv serialize get_tlv_set get_tlv_set_loop deserialize take_value required keep_valid
    is_valid find_rule mesh_cop_rules allows insert_tlv thread_rules get_length no_tlvs scope_rules
    take_extended
no_vendor_name = refl
