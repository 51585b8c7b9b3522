-- ===== src/Coap/Server.antt =====
-- The server of src/library/coap.hpp and src/library/coap.cpp: its resources, the cache of responses,
-- HandleRequest, SendResponse and the responses made of a header. A time is a number of milliseconds. A
-- handler is a number, its identity; the responses that it sends before it returns are a parameter, and
-- so is what the endpoint answers to `Send`.
pub mod Responses
pub mod Repeated
mod Tests
use ot_commissioner.Common.{
  ℕ, zero, suc, ◌+◌, ◌*◌, ◌%◌, ◌^◌, Bool, true, false, ◌&&◌, List, [], ◌∷◌, ◌++◌, length, take, ltb,
  ◌==◌, if◌then◌else◌, Option, none, some, Result, ok, err, died, ErrorCode, invalid_args, min,
  already_exists, ◌>>=◌,
}
use ot_commissioner.Coap.Header.{Header, max_token_length, version_1}
use ot_commissioner.Coap.OptionType
use ot_commissioner.Coap.Message.{Message, get_option, serialize}
use ot_commissioner.Coap.Client.{is_confirmable, type_confirmable}
use ot_commissioner.Coap.Client.Exchange.{
  is_token_equal, type_non_confirmable, type_acknowledgment, type_reset,
}

-- A message with `mEndpoint`, the endpoint that it came from or goes to.
pub record Addressed : Type 0 where
  pub endpoint : ℕ
  pub message : Message

-- `std::multimap<TimePoint, Response>`, in the order of the times at which the responses are dead.
abbrev pub ResponsesCache : Type 0
ResponsesCache = List (ℕ × Addressed)

-- 45 + 2 * 100 + 2 seconds
abbrev pub exchange_lifetime : ℕ
exchange_lifetime = 247

-- `emplace` puts an entry behind those of the same time.
unfoldable pub emplace_response : ℕ → Addressed → ResponsesCache → ResponsesCache
emplace_response time response [] = (time, response) ∷ []
emplace_response time response ((t, r) ∷ cache) =
    if ltb time t
    then (time, response) ∷ (t, r) ∷ cache
    else (t, r) ∷ emplace_response time response cache

unfoldable pub put_response : ℕ → Addressed → ResponsesCache → ResponsesCache
put_response now response cache = emplace_response (now + exchange_lifetime * 1000) response cache

-- Whether a response has the endpoint and the message id of a request.
unfoldable pub answers : ℕ → ℕ → Addressed → Bool
answers endpoint id response =
    response.endpoint == endpoint && (response.message.header.message_id == id)

unfoldable pub match_response : ℕ → ℕ → ResponsesCache → Option Addressed
match_response endpoint id [] = none
match_response endpoint id ((t, r) ∷ cache) =
    if answers endpoint id r then some r else match_response endpoint id cache

-- `ResponsesCache::Eliminate`, what its timer calls.
unfoldable pub eliminate_expired : ℕ → ResponsesCache → ResponsesCache
eliminate_expired now [] = []
eliminate_expired now ((t, r) ∷ cache) =
    let rest = eliminate_expired now cache in if ltb now t then (t, r) ∷ cache else rest

-- `std::map<std::string, Resource>`: a path, and the handler, which may be null.
abbrev pub Resources : Type 0
Resources = List (List ℕ × Option ℕ)

unfoldable pub find_resource : List ℕ → Resources → Option (Option ℕ)
find_resource path [] = none
find_resource path ((p, handler) ∷ resources) =
    if is_token_equal p path then some handler else find_resource path resources

pub record Server : Type 0 where
  pub message_id : ℕ
  pub resources : Resources
  pub responses : ResponsesCache
  pub default_handler : Option ℕ

-- A message is sent, or a handler is called.
pub data ServerEvent : Type 0 where
  sent_bytes : ℕ → List ℕ → ServerEvent
  handled : ℕ → ServerEvent

-- What has happened, the new state, and the error that is returned, if there is one.
abbrev pub Outcome : Type 0
Outcome = List ServerEvent × Server × Option ErrorCode

unfoldable pub add_resource : List ℕ → Option ℕ → Server → Result Server
add_resource path handler server = elim (find_resource path server.resources) [
  | none ↦ ok (record server { resources = (path, handler) ∷ server.resources })
  | some found ↦ err already_exists
]

unfoldable pub erase_resource : List ℕ → Resources → Resources
erase_resource path [] = []
erase_resource path ((p, handler) ∷ resources) =
    if is_token_equal p path then resources else (p, handler) ∷ erase_resource path resources

unfoldable pub remove_resource : List ℕ → Server → Server
remove_resource path server = record server { resources = erase_resource path server.resources }

-- `ClearRequestsAndResponses`, its part for the responses.
unfoldable pub clear_responses : Server → Server
clear_responses server = record server { responses = [] }

-- `AllocMessageId`, and the state that it leaves.
unfoldable pub alloc_message_id : Server → ℕ × Server
alloc_message_id server =
    let id = (server.message_id + 1) % 2 ^ 16 in (id, record server { message_id = id })

unfoldable pub set_token : List ℕ → Header → Header
set_token token header = record header {
  token_length = min (length token) max_token_length;
  token = take max_token_length token;
}

-- The changes that `SendResponse` makes to the response: its message id, token and endpoint.
unfoldable pub address_response : Addressed → Message → Addressed
address_response request response =
    let id = response.header.message_id in
    let header = record response.header {
      message_id = if id == 0 then request.message.header.message_id else id;
    } in
    record {
      endpoint = request.endpoint;
      message = record response { header = set_token request.message.header.token header };
    }

-- A response that SendHeaderResponse and SendEmptyMessage start from.
abbrev pub header_message : ℕ → ℕ → ℕ → Message
header_message type code id = record {
  header = record {
    version = version_1;
    type = type;
    token_length = 0;
    code = code;
    message_id = id;
    token = [];
  };
  options = [];
  payload = [];
}

abbrev pub code_changed : ℕ
code_changed = 0x44

abbrev pub code_not_found : ℕ
code_not_found = 0x84

abbrev pub code_empty : ℕ
code_empty = 0

module _ (transmit : ℕ → List ℕ → Option ErrorCode) where
  -- `Send`, and what it returns.
  unfoldable pub send_serialized :
      ℕ → Result (List ℕ) → Result (List ServerEvent × Option ErrorCode)
  send_serialized endpoint died = died
  send_serialized endpoint (err error) = ok ([], some error)
  send_serialized endpoint (ok bytes) = ok (sent_bytes endpoint bytes ∷ [], transmit endpoint bytes)

  unfoldable pub send_message : Addressed → Result (List ServerEvent × Option ErrorCode)
  send_message m = send_serialized m.endpoint (serialize m.message [])

  unfoldable pub send_response : ℕ → Addressed → Message → Server → Result Outcome
  send_response now request response server = do
    let addressed = address_response request response
    (events, error) ← send_message addressed
    ok (events, record server { responses = put_response now addressed server.responses }, error)

  unfoldable pub send_header_response : ℕ → ℕ → Addressed → Server → Result Outcome
  send_header_response now code request server =
      let type = request.message.header.type in
      let (id, next) = alloc_message_id server in
      if type == type_confirmable
      then send_response now request
          (header_message type_acknowledgment code request.message.header.message_id) server
      else if type == type_non_confirmable
      then send_response now request (header_message type_non_confirmable code id) next
      else ok ([], server, some invalid_args)

  unfoldable pub send_empty_changed : ℕ → Addressed → Server → Result Outcome
  send_empty_changed now request server =
      if is_confirmable request.message.header
      then send_header_response now code_changed request server
      else ok ([], server, some invalid_args)

  unfoldable pub send_not_found : ℕ → Addressed → Server → Result Outcome
  send_not_found now request server = send_header_response now code_not_found request server

  -- `SendEmptyMessage`, of an acknowledgment or a reset: it is not put in the cache.
  unfoldable pub send_empty_message : ℕ → Addressed → Result (List ServerEvent × Option ErrorCode)
  send_empty_message type request =
      if is_confirmable request.message.header
      then send_message (record {
        endpoint = request.endpoint;
        message = header_message type code_empty request.message.header.message_id;
      })
      else ok ([], some invalid_args)

  module _ (responds : ℕ → Addressed → List Message) where
    -- The responses that a handler sends, and the errors that it gets for them, which it logs.
    unfoldable pub send_responses :
        ℕ → Addressed → List Message → Server → Result (List ServerEvent × Server)
    send_responses now request [] server = ok ([], server)
    send_responses now request (response ∷ more) server = do
      (events, next, error) ← send_response now request response server
      (rest, end) ← send_responses now request more next
      ok (events ++ rest, end)

    -- A call of a handler.
    unfoldable pub run_handler : ℕ → Addressed → ℕ → Server → Result (List ServerEvent × Server)
    run_handler now request handler server = do
      (events, next) ← send_responses now request (responds handler request) server
      ok (handled handler ∷ events, next)

    unfoldable pub run_resource :
        ℕ → Addressed → Option ℕ → Server → Result (List ServerEvent × Server)
    run_resource now request none server = ok ([], server)
    run_resource now request (some handler) server = run_handler now request handler server

    -- A request that no response was found for.
    unfoldable pub run_default :
        ℕ → Addressed → Option ℕ → Server → Result (List ServerEvent × Server)
    run_default now request none server = do
      (events, next, error) ← send_not_found now request server
      ok (events, next)
    run_default now request (some handler) server = run_handler now request handler server

    unfoldable pub dispatch :
        ℕ → Addressed → Option (Option ℕ) → Server → Result (List ServerEvent × Server)
    dispatch now request none server = run_default now request server.default_handler server
    dispatch now request (some resource) server = run_resource now request resource server

    unfoldable pub answer_request :
        ℕ → Addressed → List ℕ → Option Addressed → Server → Result (List ServerEvent × Server)
    answer_request now request path none server =
        dispatch now request (find_resource path server.resources) server
    answer_request now request path (some response) server = do
      (events, error) ← send_message response
      ok (events, server)

    -- `HandleRequest`. A request without a path is dropped.
    unfoldable pub handle_path :
        ℕ → Addressed → Option (List ℕ) → Server → Result (List ServerEvent × Server)
    handle_path now request none server = ok ([], server)
    handle_path now request (some path) server =
        answer_request now request path
          (match_response request.endpoint request.message.header.message_id server.responses)
          server

    unfoldable pub handle_request : ℕ → Addressed → Server → Result (List ServerEvent × Server)
    handle_request now request server =
        handle_path now request (get_option OptionType.uri_path request.message.options) server
