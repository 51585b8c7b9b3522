-- ===== src/Coap/Client/Reachable.antt =====
-- The client of src/library/coap.cpp as a state machine: the cache of requests, and the events so far,
-- under SendRequest, HandleResponse, Retransmit and CancelRequests in any order.
use ot_commissioner.Common.{
  ℕ, ◌≡◌, refl, arith, List, [], ◌∷◌, ◌++◌, Option, ErrorCode, Bool, sym, subst, ok, Ensures-ok,
}
use ot_commissioner.Coap.Header.{Header}
use ot_commissioner.Coap.Client.{
  Request, RequestHolder, RequestsCache, Event, retransmit, cancel_requests,
}
use ot_commissioner.Coap.Client.Cache.{held, ended, ended-append}
use ot_commissioner.Coap.Client.Transmissions.{transmissions, left, transmissions-append}
use ot_commissioner.Coap.Client.Retransmit.{retransmit-IsDone}
use ot_commissioner.Coap.Client.Cancel.{cancellations, cancel_requests_lem}
use ot_commissioner.Coap.Client.Exchange.{send_request, handle_response}
use ot_commissioner.Coap.Client.Invariant.{Keeps, handle_response-Keeps}
use ot_commissioner.Coap.Client.Sending.{IsFresh, IsClient, send-IsClient}

-- A request that is sent is an object of its own, and so a fresh one.
pub data Reaches : RequestsCache → List Event → Type 0 where
  started : Reaches [] []
  sends :
      {cache : RequestsCache} {past : List Event}
      → Reaches cache past
      → (request : Request) (handler : Bool) (message_id : ℕ) (token : List ℕ) (delay now : ℕ)
        (error : Option ErrorCode) (out : List Event × RequestsCache)
      → send_request request handler message_id token delay now error cache ≡ ok out
      → IsFresh request.identity cache past
      → Reaches out.1 (past ++ out.0)
  receives :
      {cache : RequestsCache} {past : List Event}
      → Reaches cache past
      → (endpoint : ℕ) (response : Header)
      → Reaches
          (handle_response endpoint response cache).1
          (past ++ (handle_response endpoint response cache).0)
  retransmits :
      {cache : RequestsCache} {past : List Event}
      → Reaches cache past
      → (send : RequestHolder → Option ErrorCode) (now : ℕ)
      → Reaches (retransmit send now cache).1 (past ++ (retransmit send now cache).0)
  cancels :
      {cache : RequestsCache} {past : List Event}
      → Reaches cache past
      → Reaches (cancel_requests cache).1 (past ++ (cancel_requests cache).0)

-- Calls that keep what the cache holds keep the invariant.
Keeps-IsClient :
    (cache end : RequestsCache) (past events : List Event)
    → IsClient cache past
    → Keeps cache (events, end)
    → IsClient end (past ++ events)
Keeps-IsClient cache end past events (sorted, bounded, once, five) (s, b, k, l) = (
  s,
  b,
  λ request. omega (arith, once request, k request, ended-append request past events),
  λ request. omega (arith, five request, l request, transmissions-append request past events),
)

retransmit-Keeps :
    (send : RequestHolder → Option ErrorCode) (now : ℕ) (cache : RequestsCache) (past : List Event)
    → IsClient cache past
    → Keeps cache (retransmit send now cache)
retransmit-Keeps send now cache past (sorted, bounded, once, five) =
    let (s, due, b, e, l) =
      retransmit-IsDone send now cache sorted bounded (λ request. omega (arith, once request)) in
    (s, b, λ request. omega (arith, e request), l)

ended-cancellations :
    (request : ℕ) (cache : RequestsCache) → ended request (cancellations cache) ≡ held request cache
unfolding ended cancellations held
ended-cancellations request [] = refl
ended-cancellations request (h ∷ cache) = omega (arith, ended-cancellations request cache)

transmissions-cancellations :
    (request : ℕ) (cache : RequestsCache) → transmissions request (cancellations cache) ≡ 0
unfolding transmissions cancellations
transmissions-cancellations request [] = refl
transmissions-cancellations request (h ∷ cache) = transmissions-cancellations request cache

cancel-Keeps : (cache : RequestsCache) → Keeps cache (cancel_requests cache)
unfolding held left
cancel-Keeps cache = subst (Keeps cache) (sym (cancel_requests_lem cache)) (
  tt,
  tt,
  λ request. omega (arith, ended-cancellations request cache),
  λ request. omega (arith, transmissions-cancellations request cache),
)

-- Whatever requests are sent, whatever responses come in, whenever the timer fires and however often
-- the requests are cancelled, by handlers that do not call the client themselves: the cache stays in
-- order, no request is sent more than five times, once and four times again, and the handler of a
-- request is called once at most, and not while the request is in the cache.
pub Reaches-IsClient :
    {cache : RequestsCache} {past : List Event} → Reaches cache past → IsClient cache past
unfolding held ended transmissions left
Reaches-IsClient started = (tt, tt, λ request. omega arith, λ request. omega arith)
Reaches-IsClient
      (sends {cache} {past} reached request handler message_id token delay now error out e fresh) =
    Ensures-ok (λ (out : List Event × RequestsCache). IsClient out.1 (past ++ out.0)) e
      (send-IsClient cache past (Reaches-IsClient reached) request handler message_id token delay
        now error fresh)
Reaches-IsClient (receives {cache} {past} reached endpoint response) =
    let inv = Reaches-IsClient reached in
    Keeps-IsClient cache _ past _ inv (handle_response-Keeps endpoint response cache inv.0 inv.1)
Reaches-IsClient (retransmits {cache} {past} reached send now) =
    let inv = Reaches-IsClient reached in
    Keeps-IsClient cache _ past _ inv (retransmit-Keeps send now cache past inv)
Reaches-IsClient (cancels {cache} {past} reached) =
    Keeps-IsClient cache _ past _ (Reaches-IsClient reached) (cancel-Keeps cache)
