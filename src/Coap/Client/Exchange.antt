-- ===== src/Coap/Client/Exchange.antt =====
-- SendRequest and HandleResponse of src/library/coap.cpp, on the cache of requests.
use ot_commissioner.Common.{
  ℕ, ◌+◌, Bool, true, false, ◌&&◌, ◌||◌, not, List, [], ◌∷◌, ◌==◌, if◌then◌else◌, Option, none,
  some, ErrorCode, invalid_args, aborted, Result, ok, ◌>>◌, verify_or_die, length,
}
use ot_commissioner.Coap.Header.{Header}
use ot_commissioner.Coap.Client.{
  Request, RequestHolder, RequestsCache, Event, sent, finalized, reset_sent, ack_sent,
  is_confirmable, put, eliminate, finalize_transaction,
}

abbrev pub type_non_confirmable : ℕ
type_non_confirmable = 1

abbrev pub type_acknowledgment : ℕ
type_acknowledgment = 2

abbrev pub type_reset : ℕ
type_reset = 3

unfoldable pub is_empty : Header → Bool
is_empty header = header.code == 0

-- GET, POST, PUT and DELETE.
unfoldable pub is_request : Header → Bool
is_request header = header.code == 1 || header.code == 2 || header.code == 3 || header.code == 4

unfoldable pub is_response : Header → Bool
is_response header = not (is_empty header) && not (is_request header)

unfoldable pub is_token_equal : List ℕ → List ℕ → Bool
is_token_equal [] [] = true
is_token_equal [] (b ∷ bs) = false
is_token_equal (a ∷ rest) [] = false
is_token_equal (a ∷ rest) (b ∷ bs) = a == b && is_token_equal rest bs

-- The constructor of RequestHolder, with its random delay.
unfoldable pub new_holder : Request → Bool → ℕ → ℕ → RequestHolder
new_holder request handler delay now = record {
  request = request;
  handler = handler;
  retransmission_count = 0;
  retransmission_delay = delay;
  next_timer_shot = now + delay;
  acknowledged = false;
}

-- What `Send` returned decides whether the request is put in the cache.
unfoldable pub after_first_send :
    RequestHolder → Option ErrorCode → RequestsCache → List Event × RequestsCache
after_first_send holder none cache = (
  sent holder.request.identity ∷ [],
  if is_confirmable holder.request.header then put holder cache else cache,
)
after_first_send holder (some error) cache =
    (finalized holder.request.identity holder.handler (some error) ∷ [], cache)

-- `SetMessageId` and `SetToken`
unfoldable pub numbered : ℕ → List ℕ → Request → Request
numbered message_id token request = record request {
  header = record request.header {
    message_id = message_id;
    token = token;
    token_length = length token;
  };
}

-- `SendRequest`: the message id is the one that AllocMessageId gives, the token is random, and so is the
-- delay; `error` is the error of `Send`.
unfoldable pub send_request :
    Request
    → Bool
    → ℕ
    → List ℕ
    → ℕ
    → ℕ
    → Option ErrorCode
    → RequestsCache
    → Result (List Event × RequestsCache)
send_request request handler message_id token delay now error cache =
    if is_confirmable request.header || request.header.type == type_non_confirmable
    then verify_or_die (request.header.message_id == 0)
      >> ok (
          after_first_send (new_holder (numbered message_id token request) handler delay now) error
            cache)
    else ok (finalized request.identity handler (some invalid_args) ∷ [], cache)

-- The test of `RequestsCache::Match` for one request.
unfoldable pub matches : ℕ → Header → Request → Bool
matches endpoint response request =
    endpoint == request.endpoint
    && (if response.type == type_acknowledgment || response.type == type_reset
        then response.message_id == request.header.message_id
        else is_token_equal response.token request.header.token)

unfoldable pub match_request : ℕ → Header → RequestsCache → Option RequestHolder
match_request endpoint response [] = none
match_request endpoint response (h ∷ cache) =
    if matches endpoint response h.request then some h else match_request endpoint response cache

-- `mAcknowledged = true`, in place.
unfoldable pub acknowledge : ℕ → RequestsCache → RequestsCache
acknowledge request [] = []
acknowledge request (h ∷ cache) =
    if h.request.identity == request
    then record h { acknowledged = true } ∷ cache
    else h ∷ acknowledge request cache

-- An empty acknowledgment: with no handler no response is awaited.
unfoldable pub handle_empty_ack : RequestHolder → RequestsCache → List Event × RequestsCache
handle_empty_ack h cache =
    let marked =
      if is_confirmable h.request.header then acknowledge h.request.identity cache else cache in
    ([], if h.handler then marked else eliminate h.request.identity marked)

-- The cases for the type of a response to a request that was found.
unfoldable pub handle_reset : Header → RequestHolder → RequestsCache → List Event × RequestsCache
handle_reset response h cache =
    if is_empty response then finalize_transaction h (some aborted) cache else ([], cache)

unfoldable pub handle_ack : Header → RequestHolder → RequestsCache → List Event × RequestsCache
handle_ack response h cache =
    if is_empty response
    then handle_empty_ack h cache
    else if is_response response && is_token_equal response.token h.request.header.token
    then finalize_transaction h none cache
    else ([], cache)

unfoldable pub handle_separate : Header → RequestHolder → RequestsCache → List Event × RequestsCache
handle_separate response h cache =
    let (events, next) = finalize_transaction h none cache in
    (if is_confirmable response then ack_sent response.message_id ∷ events else events, next)

unfoldable pub handle_found :
    Header → RequestsCache → Option RequestHolder → List Event × RequestsCache
handle_found response cache none =
    (if is_confirmable response then reset_sent response.message_id ∷ [] else [], cache)
handle_found response cache (some h) =
    if response.type == type_reset
    then handle_reset response h cache
    else if response.type == type_acknowledgment
    then handle_ack response h cache
    else handle_separate response h cache

-- `HandleResponse`, for a response from an endpoint. A Reset to a response that is not confirmable is
-- refused by SendEmptyMessage.
unfoldable pub handle_response : ℕ → Header → RequestsCache → List Event × RequestsCache
handle_response endpoint response cache =
    handle_found response cache (match_request endpoint response cache)
