-- ===== src/Coap/Client/Cancel.antt =====
-- `Coap::CancelRequests` of src/library/coap.cpp.
use ot_commissioner.Common.{◌≡◌, refl, List, [], ◌∷◌, cancelled, some, ==_iff}
use ot_commissioner.Coap.Client.{
  RequestHolder, RequestsCache, Event, finalized, eliminate, finalize_transaction, cancel_loop,
  cancel_requests,
}

-- The transaction of each holder, in their order.
unfoldable pub cancellations : RequestsCache → List Event
cancellations [] = []
cancellations (h ∷ cache) =
    finalized h.request.identity h.handler (some cancelled) ∷ cancellations cache

eliminate_front :
    (h : RequestHolder) (cache : RequestsCache) → eliminate h.request.identity (h ∷ cache) ≡ cache
unfolding eliminate
eliminate_front h cache = rw ((==_iff h.request.identity h.request.identity).1 refl) refl

-- `CancelRequests` ends with an empty cache, and has finalized the transaction of each holder with
-- the error `cancelled`, in their order.
pub cancel_requests_lem :
    (cache : RequestsCache) → cancel_requests cache ≡ (cancellations cache, [])
unfolding cancel_requests cancel_loop cancellations finalize_transaction
cancel_requests_lem [] = refl
cancel_requests_lem (h ∷ cache) = rw (eliminate_front h cache, cancel_requests_lem cache) refl
