-- ===== src/Coap/Client/Sending.antt =====
-- SendRequest of src/library/coap.cpp keeps the invariant of the client.
use ot_commissioner.Common.{
  ℕ, ◌+◌, ◌≤◌, ◌≡◌, arith, List, [], ◌∷◌, ◌++◌, All, Option, none, some, ErrorCode, Bool, either,
  Bool-cases, inl, inr, ==_iff, true, invalid_args, subst, ◌||◌, ◌==◌, ok, Ensures, if-Ensures,
  >>=-Ensures, verify_or_die,
}
use ot_commissioner.Coap.Client.{
  Request, RequestHolder, RequestsCache, Event, sent, finalized, put, is_confirmable,
}
use ot_commissioner.Coap.Client.Cache.{
  IsSorted, held, ended, ended-append, All-put, put-IsSorted, held-put,
}
use ot_commissioner.Coap.Client.Transmissions.{
  transmissions, left, left-put, none_left, transmissions-append,
}
use ot_commissioner.Coap.Client.Retransmit.{IsBounded}
use ot_commissioner.Coap.Client.Exchange.{
  new_holder, numbered, after_first_send, send_request, type_non_confirmable,
}

-- A request that nothing was done with: it is not in the cache, not finalized and not sent.
abbrev pub IsFresh : ℕ → RequestsCache → List Event → Type 0
IsFresh request cache past =
    held request cache + ended request past + transmissions request past ≡ 0

-- The cache is in order, no count is above four, each request is in the cache or finalized, and that
-- once at most, and how often a request was sent, and may be sent again, is no more than five.
abbrev pub IsClient : RequestsCache → List Event → Type 0
IsClient cache past =
    IsSorted cache
    × All IsBounded cache
    × ((request : ℕ) → held request cache + ended request past ≤ 1)
    × ((request : ℕ) → transmissions request past + left request cache ≤ 5)

IsFresh-at :
    (cache : RequestsCache) (past : List Event) (a b : ℕ)
    → (a == b) ≡ true
    → IsFresh a cache past
    → IsFresh b cache past
IsFresh-at cache past a b e fresh = subst (λ r. IsFresh r cache past) ((==_iff a b).0 e) fresh

module _ (cache : RequestsCache) (past : List Event) (inv : IsClient cache past)
    (holder : RequestHolder) (bound : IsBounded holder)
    (fresh : IsFresh holder.request.identity cache past) where
  refused-IsClient :
      (error : Option ErrorCode)
      → IsClient cache (past ++ (finalized holder.request.identity holder.handler error ∷ []))
  unfolding ended transmissions
  refused-IsClient error = (
    inv.0,
    inv.1,
    λ request. elim (Bool-cases (holder.request.identity == request)) [
      | inl e ↦ ground (
        arith,
        IsFresh-at cache past holder.request.identity request e fresh,
        ended-append request past (finalized holder.request.identity holder.handler error ∷ []),
      )
      | inr e ↦ ground (
        arith,
        inv.2 request,
        ended-append request past (finalized holder.request.identity holder.handler error ∷ []),
      )
    ],
    λ request. omega (
      arith,
      inv.3 request,
      transmissions-append request past
          (finalized holder.request.identity holder.handler error ∷ []),
    ),
  )

  sent-IsClient : IsClient cache (past ++ (sent holder.request.identity ∷ []))
  unfolding ended transmissions
  sent-IsClient = (
    inv.0,
    inv.1,
    λ request.
        omega (arith, inv.2 request, ended-append request past (sent holder.request.identity ∷ [])),
    λ request. elim (Bool-cases (holder.request.identity == request)) [
      | inl e ↦ ground (
        arith,
        IsFresh-at cache past holder.request.identity request e fresh,
        none_left request cache,
        transmissions-append request past (sent holder.request.identity ∷ []),
      )
      | inr e ↦ ground (
        arith,
        inv.3 request,
        transmissions-append request past (sent holder.request.identity ∷ []),
      )
    ],
  )

  put-IsClient : IsClient (put holder cache) (past ++ (sent holder.request.identity ∷ []))
  unfolding ended transmissions
  put-IsClient = (
    put-IsSorted holder cache inv.0,
    All-put IsBounded holder cache bound inv.1,
    λ request. elim (Bool-cases (holder.request.identity == request)) [
      | inl e ↦ ground (
        arith,
        IsFresh-at cache past holder.request.identity request e fresh,
        held-put request holder cache,
        ended-append request past (sent holder.request.identity ∷ []),
      )
      | inr e ↦ ground (
        arith,
        inv.2 request,
        held-put request holder cache,
        ended-append request past (sent holder.request.identity ∷ []),
      )
    ],
    λ request. elim (Bool-cases (holder.request.identity == request)) [
      | inl e ↦ ground (
        arith,
        IsFresh-at cache past holder.request.identity request e fresh,
        none_left request cache,
        left-put request holder cache,
        transmissions-append request past (sent holder.request.identity ∷ []),
      )
      | inr e ↦ ground (
        arith,
        inv.3 request,
        left-put request holder cache,
        transmissions-append request past (sent holder.request.identity ∷ []),
      )
    ],
  )

  first-IsClient :
      (error : Option ErrorCode)
      → IsClient
          (after_first_send holder error cache).1
          (past ++ (after_first_send holder error cache).0)
  unfolding after_first_send
  first-IsClient none =
      either (λ c. IsClient c (past ++ (sent holder.request.identity ∷ [])))
        (is_confirmable holder.request.header) (λ e. put-IsClient) (λ e. sent-IsClient)
  first-IsClient (some error) = refused-IsClient (some error)

pub send-IsClient :
    (cache : RequestsCache) (past : List Event)
    → IsClient cache past
    → (request : Request) (handler : Bool) (message_id : ℕ) (token : List ℕ) (delay now : ℕ)
      (error : Option ErrorCode)
    → IsFresh request.identity cache past
    → Ensures
        (λ (out : List Event × RequestsCache). IsClient out.1 (past ++ out.0))
        (send_request request handler message_id token delay now error cache)
unfolding send_request new_holder numbered
send-IsClient cache past inv request handler message_id token delay now error fresh =
    let holder = new_holder (numbered message_id token request) handler delay now in
    let P = λ (out : List Event × RequestsCache). IsClient out.1 (past ++ out.0) in
    if-Ensures P (is_confirmable request.header || request.header.type == type_non_confirmable) _ _
      (>>=-Ensures P (verify_or_die (request.header.message_id == 0))
        (λ u. ok (after_first_send holder error cache))
        (λ u h. first-IsClient cache past inv holder (omega arith) fresh error))
      (refused-IsClient cache past inv holder (omega arith) fresh (some invalid_args))
