-- ===== src/Coap/Client.antt =====
-- The cache of requests of src/library/coap.hpp and src/library/coap.cpp, and its operations in
-- the class Coap: Put, Eliminate, FinalizeTransaction, CancelRequests and Retransmit. A call of a
-- handler is an event; what the handler itself does is no part of the model. A shared pointer to a
-- request is a number, its identity.
pub mod Cache
pub mod Transmissions
pub mod Retransmit
pub mod Cancel
pub mod Exchange
pub mod Invariant
pub mod Sending
pub mod Reachable
mod Tests
use ot_commissioner.Coap.Header.{Header}
use ot_commissioner.Common.{
  ℕ, zero, suc, ◌+◌, ◌*◌, Bool, true, false, ◌&&◌, not, List, [], ◌∷◌, ◌++◌, length, ltb, ◌==◌,
  if◌then◌else◌, ErrorCode, Option, none, some, cancelled, timeout,
}

-- What `mRequest` points to, with the identity of the object.
pub record Request : Type 0 where
  pub identity : ℕ
  pub endpoint : ℕ
  pub header : Header

abbrev pub type_confirmable : ℕ
type_confirmable = 0

unfoldable pub is_confirmable : Header → Bool
is_confirmable header = header.type == type_confirmable

-- `mHandler` is whether there is a handler.
pub record RequestHolder : Type 0 where
  pub request : Request
  pub handler : Bool
  pub retransmission_count : ℕ
  pub retransmission_delay : ℕ
  pub next_timer_shot : ℕ
  pub acknowledged : Bool

abbrev pub max_retransmit : ℕ
max_retransmit = 4

-- `std::multiset<RequestHolder>`, in the order of `mNextTimerShot`.
abbrev pub RequestsCache : Type 0
RequestsCache = List RequestHolder

-- A request is sent; a transaction is finalized, with what its handler, if there is one, is called
-- with: an error, or the response; an empty message is sent for a message id.
pub data Event : Type 0 where
  sent : ℕ → Event
  finalized : ℕ → Bool → Option ErrorCode → Event
  reset_sent ack_sent : ℕ → Event

unfoldable pub put : RequestHolder → RequestsCache → RequestsCache
put holder [] = holder ∷ []
put holder (h ∷ cache) =
    if ltb holder.next_timer_shot h.next_timer_shot
    then holder ∷ h ∷ cache
    else h ∷ put holder cache

-- `Eliminate(const RequestHolder &)`: the first one with this request.
unfoldable pub eliminate : ℕ → RequestsCache → RequestsCache
eliminate request [] = []
eliminate request (h ∷ cache) =
    if h.request.identity == request then cache else h ∷ eliminate request cache

unfoldable pub finalize_transaction :
    RequestHolder → Option ErrorCode → RequestsCache → List Event × RequestsCache
finalize_transaction holder error cache = (
  finalized holder.request.identity holder.handler error ∷ [],
  eliminate holder.request.identity cache,
)

-- The loop of `CancelRequests`, on fuel: the front is finalized until the cache is empty.
unfoldable pub cancel_loop : ℕ → RequestsCache → List Event × RequestsCache
cancel_loop fuel [] = ([], [])
cancel_loop zero (h ∷ cache) = ([], h ∷ cache)
cancel_loop (suc fuel) (h ∷ cache) =
    let (events, next) = finalize_transaction h (some cancelled) (h ∷ cache) in
    let (more, end) = cancel_loop fuel next in (events ++ more, end)

unfoldable pub cancel_requests : RequestsCache → List Event × RequestsCache
cancel_requests cache = cancel_loop (length cache) cache

-- The holder that `Retransmit` puts back.
unfoldable pub delayed : ℕ → RequestHolder → RequestHolder
delayed now h = record h {
  retransmission_count = h.retransmission_count + 1;
  retransmission_delay = h.retransmission_delay * 2;
  next_timer_shot = now + h.retransmission_delay * 2;
}

-- What `Send` returned decides whether the transaction goes on: the error, if there is one.
unfoldable pub after_send :
    RequestHolder → RequestsCache → Option ErrorCode → List Event × RequestsCache
after_send holder cache none = (sent holder.request.identity ∷ [], cache)
after_send holder cache (some error) = finalize_transaction holder (some error) cache

module _ (send : RequestHolder → Option ErrorCode) where
  -- One round of the loop of `Retransmit`, for a holder that was taken off the cache.
  unfoldable pub retransmit_one : ℕ → RequestHolder → RequestsCache → List Event × RequestsCache
  retransmit_one now h cache =
      if is_confirmable h.request.header && ltb h.retransmission_count max_retransmit
      then (if h.acknowledged
          then ([], put (delayed now h) cache)
          else after_send (delayed now h) (put (delayed now h) cache) (send (delayed now h)))
      else finalize_transaction h (some timeout) cache

  -- The loop, on fuel.
  unfoldable pub retransmit_loop : ℕ → ℕ → RequestsCache → List Event × RequestsCache
  retransmit_loop fuel now [] = ([], [])
  retransmit_loop zero now (h ∷ cache) = ([], h ∷ cache)
  retransmit_loop (suc fuel) now (h ∷ cache) =
      let (events, next) = retransmit_one now h cache in
      let (more, end) = retransmit_loop fuel now next in
      if ltb h.next_timer_shot now then (events ++ more, end) else ([], h ∷ cache)

  -- A holder that is put back is not due at `now`, and so a round for each holder is enough.
  unfoldable pub retransmit : ℕ → RequestsCache → List Event × RequestsCache
  retransmit now cache = retransmit_loop (length cache) now cache
