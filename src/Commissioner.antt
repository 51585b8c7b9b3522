-- ===== src/Commissioner.antt =====
-- The petition and the keep-alive of src/library/commissioner_impl.cpp, with no CCM: Petition,
-- SendPetition, SendKeepAlive, Resign, Disconnect and their response handlers. The CoAP client is the
-- list of the requests that wait for a response; it is emptied by Disconnect, which calls each handler
-- with an error. What the user's handlers do is no part of the model, nor is the id of another
-- commissioner that the handler of a petition gets with a rejection, nor the mesh-local prefix.
pub mod Invariant
pub mod Reachable
pub mod Responses
pub mod Cancelled
mod Tests
use ot_commissioner.Coap.Server.{code_changed}
use ot_commissioner.Common.{
  ℕ, Bool, true, false, not, List, [], ◌∷◌, ◌++◌, ◌==◌, if◌then◌else◌, Option, none, some,
  ErrorCode, Result, ok, err, died, ◌>>=◌, ◌>>◌, verify, cancelled, invalid_state, bad_format,
  rejected, coap_error,
}
use ot_commissioner.Bytes.{encode, decode}
use ot_commissioner.Tlv.Types
use ot_commissioner.Tlv.{
  Tlv, TlvSet, mesh_cop, no_tlvs, get_tlv_set, get_tlv, empty_tlv, state_accept, state_reject,
}
use ot_commissioner.Tlv.Message.{append_tlv}

pub data State : Type 0 where
  disabled petitioning active : State

pub data Pending : Type 0 where
  petition keep_alive : Pending

-- `timer` is whether the keep-alive timer is running.
pub record Commissioner : Type 0 where
  pub state : State
  pub session_id : ℕ
  pub timer : Bool
  pub pending : List Pending

-- A handler is called, or OnKeepAliveResponse.
pub data Event : Type 0 where
  petition_done keep_alive_done : Option ErrorCode → Event
  resigned : Event

abbrev pub Outcome : Type 0
Outcome = Commissioner × List Event

unfoldable pub initial : Commissioner
initial = record { state = disabled; session_id = 0; timer = false; pending = [] }

unfoldable pub is_active : Commissioner → Bool
is_active c = elim c.state [ active ↦ true | _ ↦ false ]

-- The handlers of the requests that are cancelled. That of a keep-alive resigns, which stops the timer
-- and disconnects: what is left is cancelled there.
unfoldable pub cancel_all : List Pending → Commissioner → Outcome
cancel_all [] c = (c, [])
cancel_all (petition ∷ pending) c =
    let (c, events) = cancel_all pending (record c { state = disabled }) in
    (c, petition_done (some cancelled) ∷ events)
cancel_all (keep_alive ∷ pending) c =
    let (c, events) = cancel_all pending (record c { state = disabled; timer = false }) in
    (record c { state = disabled }, events ++ (keep_alive_done (some cancelled) ∷ []))

unfoldable pub disconnect : Commissioner → Outcome
disconnect c =
    let (c, events) = cancel_all c.pending (record c { pending = [] }) in
    (record c { state = disabled }, events)

-- The handler of a keep-alive, with an error: `Resign` finds the commissioner not active.
unfoldable pub keep_alive_failed : ErrorCode → Commissioner → Outcome
keep_alive_failed error c =
    let (c, events) = disconnect (record c { state = disabled; timer = false }) in
    (c, events ++ (keep_alive_done (some error) ∷ []))

-- The payload of a keep-alive: the State TLV and the Commissioner Session ID TLV.
unfoldable pub keep_alive_payload : Bool → ℕ → Result (List ℕ)
keep_alive_payload keep session_id = do
  p ← append_tlv [] (empty_tlv Types.state ((if keep then state_accept else state_reject) ∷ []))
  append_tlv p (empty_tlv Types.commissioner_session_id (encode 2 [] session_id))

-- `mBrClient.SendRequest`, which calls the handler at once where sending fails.
unfoldable pub post_keep_alive : Option ErrorCode → Commissioner → Outcome
post_keep_alive none c = (record c { pending = c.pending ++ (keep_alive ∷ []) }, [])
post_keep_alive (some error) c = keep_alive_failed error c

unfoldable pub send_built : Option ErrorCode → Commissioner → Result (List ℕ) → Outcome
send_built send c (ok payload) = post_keep_alive send (record c { timer = true })
send_built send c (err error) = disconnect c
send_built send c died = (c, [])

-- `SendKeepAlive`, with the error of sending; where it fails before that, it disconnects.
unfoldable pub send_keep_alive : Bool → Option ErrorCode → Commissioner → Outcome
send_keep_alive keep send c =
    if is_active c then send_built send c (keep_alive_payload keep c.session_id) else disconnect c

-- The timer is a single shot: it is not running when its handler is called.
unfoldable pub keep_alive_timer : Option ErrorCode → Commissioner → Outcome
keep_alive_timer send c = send_keep_alive true send (record c { timer = false })

-- `Resign`
unfoldable pub resign : Option ErrorCode → Commissioner → Outcome
resign send c =
    let (c, first) = if is_active c then send_keep_alive false send c else (c, []) in
    let (c, second) = disconnect (record c { timer = false }) in
    (c, first ++ second ++ (resigned ∷ []))

unfoldable pub is_disabled : Commissioner → Bool
is_disabled c = elim c.state [ disabled ↦ true | _ ↦ false ]

-- The last step of `SendPetition`; the handler is called at once where sending fails.
unfoldable pub post_petition : Option ErrorCode → Commissioner → Outcome
post_petition none c =
    (record c { state = petitioning; pending = c.pending ++ (petition ∷ []) }, [])
post_petition (some error) c = (record c { state = disabled }, petition_done (some error) ∷ [])

unfoldable pub petition_built : Option ErrorCode → Commissioner → Result (List ℕ) → Outcome
petition_built send c (ok payload) = post_petition send c
petition_built send c (err error) = (c, petition_done (some error) ∷ [])
petition_built send c died = (c, [])

-- `SendPetition`, with the Commissioner ID of the configuration and the error of sending.
unfoldable pub send_petition : List ℕ → Option ErrorCode → Commissioner → Outcome
send_petition id send c =
    if is_disabled c
    then petition_built send c (append_tlv [] (empty_tlv Types.commissioner_id id))
    else (c, petition_done (some invalid_state) ∷ [])

-- `Petition` where the client is connected; else SendPetition is called when it is.
unfoldable pub petition_connected : List ℕ → Option ErrorCode → Commissioner → Outcome
petition_connected id send c =
    if is_active c then (c, petition_done (some invalid_state) ∷ []) else send_petition id send c

-- The handler of `Connect` in `Petition`, with the error of the connection.
unfoldable pub on_connected : List ℕ → Option ErrorCode → Option ErrorCode → Commissioner → Outcome
on_connected id (some error) send c = (c, petition_done (some error) ∷ [])
on_connected id none send c = send_petition id send c

-- A response: its code and its payload.
pub record Response : Type 0 where
  pub code : ℕ
  pub payload : List ℕ

unfoldable pub check_code : Response → Result (Unit {0})
check_code response = verify (response.code == code_changed) coap_error

-- A TLV that must be there.
unfoldable pub required : Option Tlv → Result Tlv
required none = err bad_format
required (some tlv) = ok tlv

-- `GetValueAsInt8` compared with `kStateAccept`.
unfoldable pub accepts : Tlv → Result Bool
accepts tlv = do n ← decode 1 tlv.value; ok (n == state_accept)

-- The response to a petition, up to the session id.
unfoldable pub read_petition : Response → Result ℕ
read_petition response = do
  check_code response
  set ← get_tlv_set mesh_cop no_tlvs response.payload
  state ← required (set Types.state)
  accepted ← accepts state
  verify accepted rejected
  session_id ← required (set Types.commissioner_session_id)
  decode 2 session_id.value

-- `HandleStateResponse`, where the State TLV is mandatory.
unfoldable pub read_state : Response → Result (Unit {0})
read_state response = do
  check_code response
  state ← required (get_tlv Types.state mesh_cop response.payload)
  accepted ← accepts state
  verify accepted rejected

unfoldable pub petition_answered : Result ℕ → Commissioner → Outcome
petition_answered (ok session_id) c =
    (record c { state = active; session_id = session_id; timer = true }, petition_done none ∷ [])
petition_answered (err error) c = (record c { state = disabled }, petition_done (some error) ∷ [])
petition_answered died c = (c, [])

unfoldable pub keep_alive_answered : Result (Unit {0}) → Commissioner → Outcome
keep_alive_answered (ok done) c = (record c { timer = true }, keep_alive_done none ∷ [])
keep_alive_answered (err error) c = keep_alive_failed error c
keep_alive_answered died c = (c, [])
