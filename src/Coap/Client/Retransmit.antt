-- ===== src/Coap/Client/Retransmit.antt =====
-- `Coap::Retransmit` of src/library/coap.cpp, with the errors of `Send` as a parameter.
use ot_commissioner.Common.{
  either, ℕ, zero, suc, ◌+◌, ◌≤◌, ◌<◌, ◌≡◌, refl, arith, ◌&&◌, List, [], ◌∷◌, length, All, ltb,
  ◌==◌, if◌then◌else◌, ErrorCode, timeout, Option, none, some, Bool-cases, inl, inr,
}
use ot_commissioner.Coap.Client.{
  RequestHolder, RequestsCache, is_confirmable, Event, max_retransmit, put, finalize_transaction,
  delayed, after_send, retransmit_one, retransmit_loop, retransmit,
}
use ot_commissioner.Coap.Client.Cache.{
  IsSorted, held, ended, due, ended-append, All-put, All-eliminate, put-IsSorted,
  eliminate-IsSorted, none_due, same_held, held-put, held-eliminate, due-put, due-eliminate,
  due-length,
}
use ot_commissioner.Coap.Client.Transmissions.{
  transmissions, left_of, left, transmissions-append, left-put, left-eliminate,
}

-- What a round may do with the holder that it has taken off the cache.
data Round (now : ℕ) (h : RequestHolder) (cache : RequestsCache)
    : List Event × RequestsCache → Type 0 where
  kept :
      (events : List Event)
      → ((request : ℕ) → ended request events ≡ 0)
      → ((request : ℕ)
          → transmissions request events ≤ (if h.request.identity == request then 1 else 0))
      → h.retransmission_count < 4
      → Round now h cache (events, put (delayed now h) cache)
  send_failed :
      (error : ErrorCode)
      → h.retransmission_count < 4
      → Round now h cache
          (finalize_transaction (delayed now h) (some error) (put (delayed now h) cache))
  gave_up : Round now h cache (finalize_transaction h (some timeout) cache)

abbrev pub IsBounded : RequestHolder → Type 0
IsBounded h = h.retransmission_count ≤ 4

module _ {now : ℕ} {h : RequestHolder} {cache : RequestsCache} where
  after_send-Round :
      (result : Option ErrorCode)
      → h.retransmission_count < 4
      → Round now h cache (after_send (delayed now h) (put (delayed now h) cache) result)
  unfolding after_send ended transmissions delayed
  after_send-Round none lt = kept _ (λ request. refl) (λ request. ground arith) lt
  after_send-Round (some error) lt = send_failed error lt

  Round-IsSorted :
      {out : List Event × RequestsCache} → Round now h cache out → IsSorted cache → IsSorted out.1
  unfolding finalize_transaction
  Round-IsSorted (kept events silent once lt) sorted = put-IsSorted (delayed now h) cache sorted
  Round-IsSorted (send_failed error lt) sorted =
      eliminate-IsSorted _ _ (put-IsSorted (delayed now h) cache sorted)
  Round-IsSorted gave_up sorted = eliminate-IsSorted _ cache sorted

  Round-IsBounded :
      {out : List Event × RequestsCache}
      → Round now h cache out
      → All IsBounded cache
      → All IsBounded out.1
  unfolding finalize_transaction delayed
  Round-IsBounded (kept events silent once lt) bounded =
      All-put IsBounded (delayed now h) cache (omega arith) bounded
  Round-IsBounded (send_failed error lt) bounded =
      All-eliminate IsBounded _ _ (All-put IsBounded (delayed now h) cache (omega arith) bounded)
  Round-IsBounded gave_up bounded = All-eliminate IsBounded _ cache bounded

  Round-due :
      {out : List Event × RequestsCache} → Round now h cache out → due now out.1 ≤ due now cache
  unfolding finalize_transaction delayed
  Round-due (kept events silent once lt) =
      omega (arith, due-put now (delayed now h) cache (omega arith))
  Round-due (send_failed error lt) = omega (
    arith,
    due-put now (delayed now h) cache (omega arith),
    due-eliminate now (delayed now h).request.identity (put (delayed now h) cache),
  )
  Round-due gave_up = due-eliminate now h.request.identity cache

  -- A request is sent no more often than the count of its holder goes up.
  Round-left :
      {out : List Event × RequestsCache}
      → Round now h cache out
      → (request : ℕ)
      → transmissions request out.0 + left request out.1
        ≤ (if h.request.identity == request then left_of h else 0) + left request cache
  unfolding finalize_transaction delayed transmissions
  Round-left (kept events silent once lt) request =
      ground (arith, left-put request (delayed now h) cache, once request)
  Round-left (send_failed error lt) request = ground (
    arith,
    left-put request (delayed now h) cache,
    left-eliminate request h.request.identity (put (delayed now h) cache),
  )
  Round-left gave_up request = ground (arith, left-eliminate request h.request.identity cache)

  Round-held :
      {out : List Event × RequestsCache}
      → Round now h cache out
      → held h.request.identity cache ≡ 0
      → (request : ℕ)
      → held request out.1 + ended request out.0
        ≡ (if h.request.identity == request then 1 else 0) + held request cache
  unfolding finalize_transaction delayed ended
  Round-held (kept events silent once lt) alone request =
      omega (arith, held-put request (delayed now h) cache, silent request)
  Round-held (send_failed error lt) alone request = ground (
    arith,
    held-put request (delayed now h) cache,
    held-eliminate request h.request.identity (put (delayed now h) cache),
  )
  Round-held gave_up alone request = elim (Bool-cases (h.request.identity == request)) [
    | inl e ↦ ground (
      arith,
      held-eliminate request h.request.identity cache,
      same_held cache h.request.identity request e alone,
    )
    | inr e ↦ ground (arith, held-eliminate request h.request.identity cache)
  ]

module _ (send : RequestHolder → Option ErrorCode) (now : ℕ) where
  one-Round :
      (h : RequestHolder) (cache : RequestsCache)
      → Round now h cache (retransmit_one send now h cache)
  unfolding retransmit_one
  one-Round h cache =
      either (Round now h cache)
        (is_confirmable h.request.header && ltb h.retransmission_count max_retransmit)
        (λ again.
          either (Round now h cache) h.acknowledged
            (λ acked.
              kept [] (λ request. unfold ended in refl)
                (λ request. unfold transmissions in ground arith) (ground arith))
            (λ waiting. after_send-Round (send (delayed now h)) (ground arith)))
        (λ over. gave_up)

  -- What is true of the cache and the events of a call.
  abbrev pub IsDone : RequestsCache → List Event × RequestsCache → Type 0
  IsDone cache (events, end) =
      IsSorted end
      × All (λ x. now ≤ x.next_timer_shot) end
      × All IsBounded end
      × ((request : ℕ) → held request end + ended request events ≡ held request cache)
      × ((request : ℕ) → transmissions request events + left request end ≤ left request cache)

  loop-IsDone :
      (fuel : ℕ) (cache : RequestsCache)
      → due now cache ≤ fuel
      → IsSorted cache
      → All IsBounded cache
      → ((request : ℕ) → held request cache ≤ 1)
      → IsDone cache (retransmit_loop send fuel now cache)
  unfolding retransmit_loop held ended due transmissions left
  loop-IsDone fuel [] d sorted bounded unique = (
    tt,
    tt,
    tt,
    λ request. unfold held ended in refl,
    λ request. unfold transmissions left in omega arith,
  )
  loop-IsDone zero (h ∷ cache) d sorted bounded unique = (
    sorted,
    none_due now h cache (ground arith) sorted,
    bounded,
    λ request. omega arith,
    λ request. omega arith,
  )
  loop-IsDone (suc fuel) (h ∷ cache) d (first, sorted) (b, bounded) unique =
      elim (Bool-cases (ltb h.next_timer_shot now)) [
        | inr late ↦ rw late (
          (first, sorted),
          none_due now h cache (ground arith) (first, sorted),
          (b, bounded),
          λ request. omega arith,
          λ request. omega arith,
        )
        | inl early ↦
            let round = one-Round h cache in
            let balance = Round-held round (ground (arith, unique h.request.identity)) in
            let (s, a, c, e, l) =
              loop-IsDone fuel (retransmit_one send now h cache).1 (ground (arith, Round-due round))
                (Round-IsSorted round sorted) (Round-IsBounded round bounded)
                (λ request. omega (arith, balance request, unique request)) in
            rw early (
              s,
              a,
              c,
              λ request. omega (
                arith,
                e request,
                balance request,
                ended-append request (retransmit_one send now h cache).0
                    (retransmit_loop send fuel now (retransmit_one send now h cache).1).0,
              ),
              λ request. omega (
                arith,
                l request,
                Round-left round request,
                transmissions-append request (retransmit_one send now h cache).0
                    (retransmit_loop send fuel now (retransmit_one send now h cache).1).0,
              ),
            )
      ]

-- `Retransmit` ends, whatever `Send` returns: it leaves a cache in order in which nothing is due any
-- more and no count is above four, and each request that the cache held is either still there or its
-- transaction was finalized, once and not more; and how often a request is sent in this call, and may
-- be sent after it, adds up to no more than how often it might be sent before, which is four less the
-- count of its holder. Given a cache in order, without two holders of a request and no count above
-- four.
pub retransmit-IsDone :
    (send : RequestHolder → Option ErrorCode) (now : ℕ) (cache : RequestsCache)
    → IsSorted cache
    → All IsBounded cache
    → ((request : ℕ) → held request cache ≤ 1)
    → IsDone send now cache (retransmit send now cache)
unfolding retransmit
retransmit-IsDone send now cache sorted bounded unique =
    loop-IsDone send now (length cache) cache (due-length now cache) sorted bounded unique
