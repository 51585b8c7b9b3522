-- ===== src/Coap/Client/Invariant.antt =====
-- What HandleResponse and SendRequest of src/library/coap.cpp keep of the cache of requests.
use ot_commissioner.Common.{
  ℕ, ◌+◌, ◌≤◌, ◌≡◌, refl, arith, true, ◌&&◌, List, [], ◌∷◌, All, subst, ◌==◌, if◌then◌else◌, Option,
  none, some, ErrorCode, Bool-cases, inl, inr, aborted, Option-cases, either, ==_iff,
}
use ot_commissioner.Coap.Header.{Header}
use ot_commissioner.Coap.Client.{
  RequestHolder, RequestsCache, Event, reset_sent, is_confirmable, eliminate, finalize_transaction,
}
use ot_commissioner.Coap.Client.Cache.{
  IsSorted, held, ended, All-eliminate, eliminate-IsSorted, held-eliminate,
}
use ot_commissioner.Coap.Client.Transmissions.{transmissions, left, left-eliminate}
use ot_commissioner.Coap.Client.Retransmit.{IsBounded}
use ot_commissioner.Coap.Client.Exchange.{
  matches, match_request, acknowledge, handle_empty_ack, handle_reset, handle_ack, handle_separate,
  handle_found, handle_response, is_empty, is_response, is_token_equal, type_acknowledgment,
  type_reset,
}

-- A call keeps the order and the bound, finalizes no transaction of a request that it keeps, and
-- none that it did not find, and sends a request no more often than its count goes up.
abbrev pub Keeps : RequestsCache → List Event × RequestsCache → Type 0
Keeps cache (events, end) =
    IsSorted end
    × All IsBounded end
    × ((request : ℕ) → held request end + ended request events ≤ held request cache)
    × ((request : ℕ) → transmissions request events + left request end ≤ left request cache)

held_again :
    (cache : RequestsCache) (a b : ℕ) → (a == b) ≡ true → 1 ≤ held a cache → 1 ≤ held b cache
held_again cache a b e h = subst (λ r. 1 ≤ held r cache) ((==_iff a b).0 e) h

module _ (cache : RequestsCache) (sorted : IsSorted cache) (bounded : All IsBounded cache) where
  unchanged :
      (events : List Event)
      → ((request : ℕ) → ended request events ≡ 0)
      → ((request : ℕ) → transmissions request events ≡ 0)
      → Keeps cache (events, cache)
  unchanged events silent unsent = (
    sorted,
    bounded,
    λ request. omega (arith, silent request),
    λ request. omega (arith, unsent request),
  )

  finalize-Keeps :
      (h : RequestHolder) (error : Option ErrorCode)
      → 1 ≤ held h.request.identity cache
      → Keeps cache (finalize_transaction h error cache)
  unfolding finalize_transaction ended transmissions
  finalize-Keeps h error found = (
    eliminate-IsSorted _ cache sorted,
    All-eliminate IsBounded _ cache bounded,
    λ request. elim (Bool-cases (h.request.identity == request)) [
      | inl e ↦ ground (
        arith,
        held-eliminate request h.request.identity cache,
        held_again cache h.request.identity request e found,
      )
      | inr e ↦ ground (arith, held-eliminate request h.request.identity cache)
    ],
    λ request. omega (arith, left-eliminate request h.request.identity cache),
  )

match_request-held :
    (endpoint : ℕ) (response : Header) (cache : RequestsCache) (h : RequestHolder)
    → match_request endpoint response cache ≡ some h
    → 1 ≤ held h.request.identity cache
unfolding match_request held
match_request-held endpoint response [] h e = absurd cc
match_request-held endpoint response (x ∷ cache) h e =
    elim (Bool-cases (matches endpoint response x.request)) [
      | inl found ↦ ground arith
      | inr missed ↦ ground (arith, match_request-held endpoint response cache h)
    ]

All-acknowledge :
    (P : RequestHolder → Type 0) (request : ℕ) (cache : RequestsCache)
    → ((h : RequestHolder) → P h → P (record h { acknowledged = true }))
    → All P cache
    → All P (acknowledge request cache)
unfolding acknowledge
All-acknowledge P request [] k all = tt
All-acknowledge P request (x ∷ cache) k (hx, all) =
    either (All P) (x.request.identity == request) (λ e. (k x hx, all))
      (λ e. (hx, All-acknowledge P request cache k all))

acknowledge-IsSorted :
    (request : ℕ) (cache : RequestsCache) → IsSorted cache → IsSorted (acknowledge request cache)
unfolding acknowledge
acknowledge-IsSorted request [] sorted = tt
acknowledge-IsSorted request (x ∷ cache) (first, sorted) =
    either IsSorted (x.request.identity == request) (λ e. (first, sorted))
      (λ e. (
        All-acknowledge (λ y. x.next_timer_shot ≤ y.next_timer_shot) request cache (λ h le. le)
            first,
        acknowledge-IsSorted request cache sorted,
      ))

held-acknowledge :
    (request r : ℕ) (cache : RequestsCache)
    → held request (acknowledge r cache) ≡ held request cache
unfolding acknowledge held
held-acknowledge request r [] = refl
held-acknowledge request r (x ∷ cache) =
    either (λ c. held request c ≡ held request (x ∷ cache)) (x.request.identity == r) (λ e. refl)
      (λ e. omega (arith, held-acknowledge request r cache))

left-acknowledge :
    (request r : ℕ) (cache : RequestsCache)
    → left request (acknowledge r cache) ≡ left request cache
unfolding acknowledge left
left-acknowledge request r [] = refl
left-acknowledge request r (x ∷ cache) =
    either (λ c. left request c ≡ left request (x ∷ cache)) (x.request.identity == r) (λ e. refl)
      (λ e. omega (arith, left-acknowledge request r cache))

nothing_found :
    (response : Header) (cache : RequestsCache)
    → IsSorted cache
    → All IsBounded cache
    → Keeps cache (handle_found response cache none)
unfolding handle_found ended transmissions
nothing_found response cache sorted bounded =
    either (λ events. Keeps cache (events, cache)) (is_confirmable response)
      (λ e.
        unchanged cache sorted bounded (reset_sent response.message_id ∷ []) (λ request. refl)
          (λ request. refl))
      (λ e. unchanged cache sorted bounded [] (λ request. refl) (λ request. refl))

empty_ack-Keeps :
    (h : RequestHolder) (cache : RequestsCache)
    → IsSorted cache
    → All IsBounded cache
    → Keeps cache (handle_empty_ack h cache)
unfolding handle_empty_ack ended transmissions
empty_ack-Keeps h cache sorted bounded =
    let r = h.request.identity in
    let marked : Keeps cache ([], acknowledge r cache) = (
      acknowledge-IsSorted r cache sorted,
      All-acknowledge IsBounded r cache (λ x b. b) bounded,
      λ request. omega (arith, held-acknowledge request r cache),
      λ request. omega (arith, left-acknowledge request r cache),
    ) in
    let same = unchanged cache sorted bounded [] (λ request. refl) (λ request. refl) in
    let dropped : (c : RequestsCache) → Keeps cache ([], c) → Keeps cache ([], eliminate r c) =
      λ c k. (
        eliminate-IsSorted r c k.0,
        All-eliminate IsBounded r c k.1,
        λ request. ground (arith, held-eliminate request r c, k.2 request),
        λ request. omega (arith, left-eliminate request r c, k.3 request),
      ) in
    either (λ c. Keeps cache ([], if h.handler then c else eliminate r c))
      (is_confirmable h.request.header)
      (λ e. either (λ c. Keeps cache ([], c)) h.handler (λ f. marked) (λ f. dropped _ marked))
      (λ e. either (λ c. Keeps cache ([], c)) h.handler (λ f. same) (λ f. dropped _ same))

found-Keeps :
    (response : Header) (h : RequestHolder) (cache : RequestsCache)
    → IsSorted cache
    → All IsBounded cache
    → 1 ≤ held h.request.identity cache
    → Keeps cache (handle_found response cache (some h))
unfolding handle_found handle_reset handle_ack handle_separate
found-Keeps response h cache sorted bounded found =
    let same =
      unchanged cache sorted bounded [] (λ request. unfold ended in refl)
        (λ request. unfold transmissions in refl) in
    let final = λ (error : Option ErrorCode). finalize-Keeps cache sorted bounded h error found in
    either (Keeps cache) (response.type == type_reset)
      (λ e. either (Keeps cache) (is_empty response) (λ f. final (some aborted)) (λ f. same))
      (λ e.
        either (Keeps cache) (response.type == type_acknowledgment)
          (λ f.
            either (Keeps cache) (is_empty response) (λ g. empty_ack-Keeps h cache sorted bounded)
              (λ g.
                either (Keeps cache)
                  (is_response response && is_token_equal response.token h.request.header.token)
                  (λ k. final none) (λ k. same)))
          (λ f.
            either (λ events. Keeps cache (events, (finalize_transaction h none cache).1))
              (is_confirmable response) (λ g. unfold ended transmissions in final none)
              (λ g. final none)))

pub handle_response-Keeps :
    (endpoint : ℕ) (response : Header) (cache : RequestsCache)
    → IsSorted cache
    → All IsBounded cache
    → Keeps cache (handle_response endpoint response cache)
unfolding handle_response
handle_response-Keeps endpoint response cache sorted bounded =
    elim (Option-cases (match_request endpoint response cache)) [
      | inl e ↦ rw e (nothing_found response cache sorted bounded)
      | inr (h, e) ↦ rw e (
          found-Keeps response h cache sorted bounded
            (match_request-held endpoint response cache h e))
    ]
