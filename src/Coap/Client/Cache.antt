-- ===== src/Coap/Client/Cache.antt =====
-- The cache of requests of src/library/coap.cpp: its order, and how often it holds a request.
use ot_commissioner.Common.{
  ℕ, ◌+◌, ◌-◌, ◌≤◌, ◌≡◌, refl, arith, true, List, [], ◌∷◌, ◌++◌, All, ltb, ◌==◌, if◌then◌else◌,
  length, Bool-cases, inl, inr, subst, ==_iff,
}
use ot_commissioner.Coap.Client.{
  RequestHolder, RequestsCache, Event, sent, finalized, reset_sent, ack_sent, put, eliminate,
}

abbrev pub IsSorted : RequestsCache → Type 0
IsSorted [] = Unit {0}
IsSorted (h ∷ cache) = All (λ x. h.next_timer_shot ≤ x.next_timer_shot) cache × IsSorted cache

-- How often a request is in the cache.
unfoldable pub held : ℕ → RequestsCache → ℕ
held request [] = 0
held request (h ∷ cache) = (if h.request.identity == request then 1 else 0) + held request cache

-- How often a transaction is finalized.
unfoldable pub ended : ℕ → List Event → ℕ
ended request [] = 0
ended request (sent r ∷ events) = ended request events
ended request (reset_sent r ∷ events) = ended request events
ended request (ack_sent r ∷ events) = ended request events
ended request (finalized r handler error ∷ events) =
    (if r == request then 1 else 0) + ended request events

-- How many holders are due.
unfoldable pub due : ℕ → RequestsCache → ℕ
due now [] = 0
due now (h ∷ cache) = (if ltb h.next_timer_shot now then 1 else 0) + due now cache

pub ended-append :
    (request : ℕ) (events more : List Event)
    → ended request (events ++ more) ≡ ended request events + ended request more
unfolding ended
ended-append request [] more = omega arith
ended-append request (sent r ∷ events) more = ended-append request events more
ended-append request (reset_sent r ∷ events) more = ended-append request events more
ended-append request (ack_sent r ∷ events) more = ended-append request events more
ended-append request (finalized r handler error ∷ events) more =
    omega (arith, ended-append request events more)

pub All-put :
    (P : RequestHolder → Type 0) (holder : RequestHolder) (cache : RequestsCache)
    → P holder
    → All P cache
    → All P (put holder cache)
unfolding put
All-put P holder [] h all = (h, tt)
All-put P holder (x ∷ cache) h (hx, all) =
    elim (Bool-cases (ltb holder.next_timer_shot x.next_timer_shot)) [
      | inl e ↦ rw e (h, (hx, all))
      | inr e ↦ rw e (hx, All-put P holder cache h all)
    ]

pub All-eliminate :
    (P : RequestHolder → Type 0) (request : ℕ) (cache : RequestsCache)
    → All P cache
    → All P (eliminate request cache)
unfolding eliminate
All-eliminate P request [] all = tt
All-eliminate P request (x ∷ cache) (hx, all) = elim (Bool-cases (x.request.identity == request)) [
  | inl e ↦ rw e all
  | inr e ↦ rw e (hx, All-eliminate P request cache all)
]

All-le :
    (a b : ℕ) (cache : RequestsCache)
    → a ≤ b
    → All (λ x. b ≤ x.next_timer_shot) cache
    → All (λ x. a ≤ x.next_timer_shot) cache
All-le a b [] h all = tt
All-le a b (x ∷ cache) h (hx, all) = (omega arith, All-le a b cache h all)

pub put-IsSorted :
    (holder : RequestHolder) (cache : RequestsCache) → IsSorted cache → IsSorted (put holder cache)
unfolding put
put-IsSorted holder [] sorted = (tt, tt)
put-IsSorted holder (x ∷ cache) (first, sorted) =
    elim (Bool-cases (ltb holder.next_timer_shot x.next_timer_shot)) [
      | inl e ↦ rw e (
        (ground arith, All-le holder.next_timer_shot x.next_timer_shot cache (ground arith) first),
        (first, sorted),
      )
      | inr e ↦ rw e (
        All-put (λ y. x.next_timer_shot ≤ y.next_timer_shot) holder cache (ground arith) first,
        put-IsSorted holder cache sorted,
      )
    ]

pub eliminate-IsSorted :
    (request : ℕ) (cache : RequestsCache) → IsSorted cache → IsSorted (eliminate request cache)
unfolding eliminate
eliminate-IsSorted request [] sorted = tt
eliminate-IsSorted request (x ∷ cache) (first, sorted) =
    elim (Bool-cases (x.request.identity == request)) [
      | inl e ↦ rw e sorted
      | inr e ↦ rw e (
        All-eliminate (λ y. x.next_timer_shot ≤ y.next_timer_shot) request cache first,
        eliminate-IsSorted request cache sorted,
      )
    ]

-- In a sorted cache whose earliest holder is not due, none is.
pub none_due :
    (now : ℕ) (h : RequestHolder) (cache : RequestsCache)
    → now ≤ h.next_timer_shot
    → IsSorted (h ∷ cache)
    → All (λ x. now ≤ x.next_timer_shot) (h ∷ cache)
none_due now h cache le (first, sorted) = (le, All-le now h.next_timer_shot cache le first)

pub held-put :
    (request : ℕ) (holder : RequestHolder) (cache : RequestsCache)
    → held request (put holder cache)
      ≡ (if holder.request.identity == request then 1 else 0) + held request cache
unfolding held put
held-put request holder [] = refl
held-put request holder (x ∷ cache) =
    elim (Bool-cases (ltb holder.next_timer_shot x.next_timer_shot)) [
      | inl e ↦ rw e refl
      | inr e ↦ rw e (omega (arith, held-put request holder cache))
    ]

pub held-eliminate :
    (request r : ℕ) (cache : RequestsCache)
    → held request (eliminate r cache) ≡ held request cache - (if r == request then 1 else 0)
unfolding held eliminate
held-eliminate request r [] = ground arith
held-eliminate request r (x ∷ cache) = ground (arith, held-eliminate request r cache)

pub due-put :
    (now : ℕ) (holder : RequestHolder) (cache : RequestsCache)
    → now ≤ holder.next_timer_shot
    → due now (put holder cache) ≡ due now cache
unfolding due put
due-put now holder [] h = ground arith
due-put now holder (x ∷ cache) h = ground (arith, due-put now holder cache h)

pub due-eliminate :
    (now request : ℕ) (cache : RequestsCache) → due now (eliminate request cache) ≤ due now cache
unfolding due eliminate
due-eliminate now request [] = omega arith
due-eliminate now request (x ∷ cache) = ground (arith, due-eliminate now request cache)

pub due-length : (now : ℕ) (cache : RequestsCache) → due now cache ≤ length cache
unfolding due
due-length now [] = omega arith
due-length now (x ∷ cache) = ground (arith, due-length now cache)

pub same_held :
    (cache : RequestsCache) (a b : ℕ) → (a == b) ≡ true → held a cache ≡ 0 → held b cache ≡ 0
same_held cache a b e alone = subst (λ r. held r cache ≡ 0) ((==_iff a b).0 e) alone
