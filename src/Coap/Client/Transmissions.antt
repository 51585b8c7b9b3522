-- ===== src/Coap/Client/Transmissions.antt =====
-- How often a request is sent, and may be sent again, by the client of src/library/coap.cpp.
use ot_commissioner.Common.{
  ℕ, ◌+◌, ◌-◌, ◌≤◌, ◌≡◌, refl, arith, List, [], ◌∷◌, ◌++◌, ltb, ◌==◌, if◌then◌else◌, Bool-cases,
  inl, inr,
}
use ot_commissioner.Coap.Client.{
  RequestHolder, RequestsCache, Event, sent, finalized, reset_sent, ack_sent, put, eliminate,
}
use ot_commissioner.Coap.Client.Cache.{held}

-- How often a request is sent.
unfoldable pub transmissions : ℕ → List Event → ℕ
transmissions request [] = 0
transmissions request (sent r ∷ events) =
    (if r == request then 1 else 0) + transmissions request events
transmissions request (reset_sent r ∷ events) = transmissions request events
transmissions request (ack_sent r ∷ events) = transmissions request events
transmissions request (finalized r handler error ∷ events) = transmissions request events

-- How often a holder may be sent again.
abbrev pub left_of : RequestHolder → ℕ
left_of h = 4 - h.retransmission_count

-- How often the holders of a request may be sent again.
unfoldable pub left : ℕ → RequestsCache → ℕ
left request [] = 0
left request (h ∷ cache) =
    (if h.request.identity == request then left_of h else 0) + left request cache

pub transmissions-append :
    (request : ℕ) (events more : List Event)
    → transmissions request (events ++ more)
      ≡ transmissions request events + transmissions request more
unfolding transmissions
transmissions-append request [] more = omega arith
transmissions-append request (sent r ∷ events) more =
    omega (arith, transmissions-append request events more)
transmissions-append request (reset_sent r ∷ events) more = transmissions-append request events more
transmissions-append request (ack_sent r ∷ events) more = transmissions-append request events more
transmissions-append request (finalized r handler error ∷ events) more =
    transmissions-append request events more

pub left-put :
    (request : ℕ) (holder : RequestHolder) (cache : RequestsCache)
    → left request (put holder cache)
      ≡ (if holder.request.identity == request then left_of holder else 0) + left request cache
unfolding left put
left-put request holder [] = refl
left-put request holder (x ∷ cache) =
    elim (Bool-cases (ltb holder.next_timer_shot x.next_timer_shot)) [
      | inl e ↦ rw e refl
      | inr e ↦ rw e (omega (arith, left-put request holder cache))
    ]

pub left-eliminate :
    (request r : ℕ) (cache : RequestsCache) → left request (eliminate r cache) ≤ left request cache
unfolding left eliminate
left-eliminate request r [] = omega arith
left-eliminate request r (x ∷ cache) = ground (arith, left-eliminate request r cache)

pub none_left :
    (request : ℕ) (cache : RequestsCache) → held request cache ≡ 0 → left request cache ≡ 0
unfolding held left
none_left request [] none_held = refl
none_left request (x ∷ cache) none_held = ground (arith, none_left request cache)
