-- ===== src/Relay/Timer.antt =====
-- What HandleJoinerSessionTimer of src/library/commissioner_impl.cpp leaves.
use ot_commissioner.Common.{
  length, zero, ap, ◌∙◌, suc, le→leb, ℕ, ◌≤◌, ◌<◌, ◌≡◌, refl, arith, List, [], ◌∷◌, Option, none,
  some, ltb, leb, Bool-cases, inl, inr, ◌⊎◌, if◌then◌else◌,
}
use ot_commissioner.Relay.{JoinerSession, Relay, earlier, expire_loop, handle_joiner_session_timer}

-- The sessions that have not expired, in their order.
unfoldable pub unexpired : ℕ → List JoinerSession → List JoinerSession
unexpired now [] = []
unexpired now (s ∷ sessions) =
    let rest = unexpired now sessions in if leb s.expiration_time now then rest else s ∷ rest

-- The earliest time of expiration.
unfoldable pub earliest : List JoinerSession → Option ℕ → Option ℕ
earliest [] next = next
earliest (s ∷ sessions) next = earliest sessions (earlier s.expiration_time next)

pub expire_loop_lem :
    (now : ℕ) (sessions : List JoinerSession) (next : Option ℕ)
    → expire_loop now sessions next
      ≡ (unexpired now sessions, earliest (unexpired now sessions) next)
unfolding expire_loop unexpired earliest
expire_loop_lem now [] next = refl
expire_loop_lem now (s ∷ sessions) next = elim (Bool-cases (leb s.expiration_time now)) [
  | inl e ↦ rw e (expire_loop_lem now sessions next)
  | inr e ↦ rw (e, expire_loop_lem now sessions (earlier s.expiration_time next)) refl
]

pub handle_timer_lem :
    (now : ℕ) (relay : Relay)
    → handle_joiner_session_timer now relay ≡ record {
      sessions = unexpired now relay.sessions;
      timer = earliest (unexpired now relay.sessions) none;
    }
unfolding handle_joiner_session_timer
handle_timer_lem now relay = rw (expire_loop_lem now relay.sessions none) refl

length-unexpired :
    (now : ℕ) (sessions : List JoinerSession) → length (unexpired now sessions) ≤ length sessions
unfolding unexpired
length-unexpired now [] = omega arith
length-unexpired now (s ∷ sessions) = ground (arith, length-unexpired now sessions)

pub earlier-cases :
    (time t : ℕ) (next : Option ℕ) → earlier time next ≡ some t → (next ≡ some t) ⊎ (time ≡ t)
unfolding earlier
earlier-cases time t none e = inr (ground (arith, e))
earlier-cases time t (some u) e = elim (Bool-cases (ltb time u)) [
  | inl lt ↦ inr (ground (arith, e))
  | inr ge ↦ inl (ground (arith, e))
]

-- One session at least has expired at the earliest time.
shorter :
    (t : ℕ) (sessions : List JoinerSession) (next : Option ℕ)
    → earliest sessions next ≡ some t
    → (next ≡ some t) ⊎ (length (unexpired t sessions) < length sessions)
unfolding earliest unexpired
shorter t [] next e = inl e
shorter t (s ∷ sessions) next e = elim (shorter t sessions (earlier s.expiration_time next) e) [
  | inl first ↦ elim (earlier-cases s.expiration_time t next first) [
    | inl same ↦ inl same
    | inr here ↦
        inr (
          rw (le→leb s.expiration_time t (omega arith))
            (omega (arith, length-unexpired t sessions)))
  ]
  | inr less ↦ inr (ground arith)
]

-- The timer, left alone, fires at each of its times.
unfoldable pub fires : ℕ → Relay → Relay
fires zero relay = relay
fires (suc n) relay = elim relay.timer [
  | none ↦ relay
  | some time ↦ fires n (handle_joiner_session_timer time relay)
]

earlier-some : (time : ℕ) (next : Option ℕ) → (t : ℕ) × (earlier time next ≡ some t)
unfolding earlier
earlier-some time none = (time, refl)
earlier-some time (some u) = elim (Bool-cases (ltb time u)) [
  | inl e ↦ (time, rw e refl)
  | inr e ↦ (u, rw e refl)
]

pub earliest-some :
    (sessions : List JoinerSession) (t : ℕ) → (u : ℕ) × (earliest sessions (some t) ≡ some u)
unfolding earliest
earliest-some [] t = (t, refl)
earliest-some (s ∷ sessions) t =
    let (u, e) = earlier-some s.expiration_time (some t) in
    let (v, f) = earliest-some sessions u in (v, rw e f)

-- One shot of the timer.
fires_once :
    (n : ℕ) (relay : Relay) (time : ℕ)
    → relay.timer ≡ some time
    → fires (suc n) relay
      ≡ fires n (record {
        sessions = unexpired time relay.sessions;
        timer = earliest (unexpired time relay.sessions) none;
      })
unfolding fires
fires_once n relay time e =
    ap (λ o. elim o [ none ↦ relay | some t ↦ fires n (handle_joiner_session_timer t relay) ]) e
    ∙ ap (fires n) (handle_timer_lem time relay)

-- Where the timer runs at the earliest time, it fires once for each session at most.
fires_all :
    (n : ℕ) (sessions : List JoinerSession)
    → length sessions ≤ n
    → (fires n (record { sessions = sessions; timer = earliest sessions none })).sessions ≡ []
unfolding fires earliest earlier
fires_all zero [] le = refl
fires_all zero (s ∷ sessions) le = absurd (omega arith)
fires_all (suc n) [] le = refl
fires_all (suc n) (s ∷ sessions) le =
    let (t, e) = earliest-some sessions s.expiration_time in
    let less : length (unexpired t (s ∷ sessions)) < length (s ∷ sessions) =
      elim (shorter t (s ∷ sessions) none e) [ inl never ↦ absurd cc | inr less ↦ less ] in
    ap (λ (r : Relay). r.sessions)
      (fires_once n (record { sessions = s ∷ sessions; timer = earliest (s ∷ sessions) none }) t e)
    ∙ fires_all n (unexpired t (s ∷ sessions)) (omega (arith, less))

-- A timer that runs, at any time whatever, fires once for each session and once more at most until no
-- session is left, if no joiner comes in the meantime.
pub fires-empty :
    (relay : Relay) (time : ℕ)
    → relay.timer ≡ some time
    → (fires (suc (length relay.sessions)) relay).sessions ≡ []
fires-empty relay time e =
    ap (λ (r : Relay). r.sessions) (fires_once (length relay.sessions) relay time e)
    ∙ fires_all (length relay.sessions) (unexpired time relay.sessions)
        (length-unexpired time relay.sessions)
