-- ===== src/Relay/Sessions/Lists.antt =====
-- Lists of sessions in src/library/commissioner_impl.cpp: what is kept of them where a session is erased, expires or changes.
use ot_commissioner.Common.{
  no_bytes, ℕ, ◌+◌, ◌≤◌, ◌≡◌, refl, sym, ap, ◌∙◌, arith, Bool, true, false, List, [], ◌∷◌, All,
  Option, none, some, leb, ==_iff, ◌==◌, ◌&&◌, if◌then◌else◌, either, inl, inr,
}
use mathlib.Core.Path.{ap₂}
use ot_commissioner.Coap.Client.Exchange.{is_token_equal}
use ot_commissioner.Relay.{
  DtlsState, JoinerSession, session_lifetime, find_session, erase_session, session_disabled,
  drop_disabled, earlier,
}
use ot_commissioner.Relay.Timer.{unexpired, earliest, earlier-cases, earliest-some}
use ot_commissioner.Relay.Sessions.{set_state, count, IsSession, IsTimed, AreSessions}

both : (a b : Bool) → a && b ≡ true → (a ≡ true) × (b ≡ true)
both true b e = (refl, e)
both false b e = cc

neither :
    {A : Type 0} (b : Bool) (x : A) (o : Option A)
    → (if b then some x else o) ≡ none
    → (b ≡ false) × (o ≡ none)
neither true x o e = cc
neither false x o e = (refl, e)

pub token_eq : (a b : List ℕ) → is_token_equal a b ≡ true → a ≡ b
unfolding is_token_equal
token_eq [] [] e = refl
token_eq [] (b ∷ bs) e = cc
token_eq (a ∷ as') [] e = cc
token_eq (a ∷ as') (b ∷ bs) e =
    let (first, rest) = both (a == b) (is_token_equal as' bs) e in
    ap₂ ◌∷◌ ((==_iff a b).0 first) (token_eq as' bs rest)

pub IsSession-later :
    (now later : ℕ) (sessions : List JoinerSession)
    → now ≤ later
    → All (IsSession now) sessions
    → All (IsSession later) sessions
IsSession-later now later [] le all = tt
IsSession-later now later (s ∷ sessions) le ((valid, time), all) =
    ((valid, omega arith), IsSession-later now later sessions le all)

count-erase :
    (i id : List ℕ) (sessions : List JoinerSession)
    → count i (erase_session id sessions) ≤ count i sessions
unfolding count erase_session
count-erase i id [] = omega arith
count-erase i id (s ∷ sessions) = ground (arith, count-erase i id sessions)

pub count-unexpired :
    (i : List ℕ) (now : ℕ) (sessions : List JoinerSession)
    → count i (unexpired now sessions) ≤ count i sessions
unfolding count unexpired
count-unexpired i now [] = omega arith
count-unexpired i now (s ∷ sessions) = ground (arith, count-unexpired i now sessions)

pub count-set_state :
    (i id : List ℕ) (state : DtlsState) (sessions : List JoinerSession)
    → count i (set_state id state sessions) ≡ count i sessions
unfolding count set_state
count-set_state i id state [] = refl
count-set_state i id state (s ∷ sessions) =
    either (λ ss. count i ss ≡ count i (s ∷ sessions)) (is_token_equal s.joiner_id id) (λ e. refl)
      (λ e.
        ap (λ n. (if is_token_equal s.joiner_id i then 1 else 0) + n)
          (count-set_state i id state sessions))

pub count-none :
    (id : List ℕ) (sessions : List JoinerSession)
    → find_session id sessions ≡ none
    → count id sessions ≡ 0
unfolding count find_session
count-none id [] e = refl
count-none id (s ∷ sessions) e =
    let (missed, rest) = neither (is_token_equal s.joiner_id id) s (find_session id sessions) e in
    rw missed (omega (arith, count-none id sessions rest))

All-erase :
    (now : ℕ) (id : List ℕ) (sessions : List JoinerSession)
    → All (IsSession now) sessions
    → All (IsSession now) (erase_session id sessions)
unfolding erase_session
All-erase now id [] all = tt
All-erase now id (s ∷ sessions) (h, all) =
    either (All (IsSession now)) (is_token_equal s.joiner_id id) (λ e. all)
      (λ e. (h, All-erase now id sessions all))

pub All-unexpired :
    (now time : ℕ) (sessions : List JoinerSession)
    → All (IsSession now) sessions
    → All (IsSession now) (unexpired time sessions)
unfolding unexpired
All-unexpired now time [] all = tt
All-unexpired now time (s ∷ sessions) (h, all) =
    either (All (IsSession now)) (leb s.expiration_time time)
      (λ e. All-unexpired now time sessions all) (λ e. (h, All-unexpired now time sessions all))

pub All-set_state :
    (now : ℕ) (id : List ℕ) (state : DtlsState) (sessions : List JoinerSession)
    → All (IsSession now) sessions
    → All (IsSession now) (set_state id state sessions)
unfolding set_state
All-set_state now id state [] all = tt
All-set_state now id state (s ∷ sessions) (h, all) =
    either (All (IsSession now)) (is_token_equal s.joiner_id id) (λ e. (h, all))
      (λ e. (h, All-set_state now id state sessions all))

dropped_by :
    (now : ℕ) (id : List ℕ) (sessions : List JoinerSession) (found : Option JoinerSession)
    → AreSessions now sessions
    → AreSessions now (elim found [
      | none ↦ sessions
      | some s ↦ if session_disabled s then erase_session id sessions else sessions
    ])
dropped_by now id sessions none are = are
dropped_by now id sessions (some s) (all, once) =
    either (AreSessions now) (session_disabled s)
      (λ f. (All-erase now id sessions all, λ i. omega (arith, once i, count-erase i id sessions)))
      (λ f. (all, once))

-- The sessions that are there before a message is served: one that is disabled is erased.
pub dropped-AreSessions :
    (now : ℕ) (id : List ℕ) (sessions : List JoinerSession)
    → AreSessions now sessions
    → AreSessions now (drop_disabled id sessions)
unfolding drop_disabled
dropped-AreSessions now id sessions are = dropped_by now id sessions (find_session id sessions) are

dropped_empty :
    (id : List ℕ) (sessions : List JoinerSession) → sessions ≡ [] → drop_disabled id sessions ≡ []
unfolding drop_disabled find_session
dropped_empty id sessions e = rw e refl

pub IsTimed-dropped :
    (now : ℕ) (id : List ℕ) (sessions : List JoinerSession) (timer : Option ℕ)
    → IsTimed now sessions timer
    → IsTimed now (drop_disabled id sessions) timer
IsTimed-dropped now id sessions none timed = dropped_empty id sessions timed
IsTimed-dropped now id sessions (some time) timed = timed

pub earliest-bound :
    (now : ℕ) (sessions : List JoinerSession) (next : Option ℕ) (time : ℕ)
    → All (IsSession now) sessions
    → ((t : ℕ) → next ≡ some t → t ≤ now + session_lifetime)
    → earliest sessions next ≡ some time
    → time ≤ now + session_lifetime
unfolding earliest
earliest-bound now [] next time all bound e = bound time e
earliest-bound now (s ∷ sessions) next time ((valid, h), all) bound e =
    earliest-bound now sessions (earlier s.expiration_time next) time all
      (λ t f. elim (earlier-cases s.expiration_time t next f) [
        | inl same ↦ bound t same
        | inr here ↦ omega arith
      ])
      e

pub not_nothing : (pskd : List ℕ) → no_bytes pskd ≡ false → pskd ≡ [] → ⊥
not_nothing [] e empty = cc
not_nothing (b ∷ pskd) e empty = cc

pub no_next : (sessions : List JoinerSession) → earliest sessions none ≡ none → sessions ≡ []
unfolding earliest earlier
no_next [] e = refl
no_next (s ∷ sessions) e =
    let (t, f) = earliest-some sessions s.expiration_time in absurd (some_none t (sym f ∙ e))
  where
    some_none : (t : ℕ) → some t ≡ none → ⊥
    some_none t g = cc

pub IsTimed-later :
    (now later : ℕ) (sessions : List JoinerSession) (timer : Option ℕ)
    → now ≤ later
    → IsTimed now sessions timer
    → IsTimed later sessions timer
IsTimed-later now later sessions none le timed = timed
IsTimed-later now later sessions (some time) le timed = omega arith

pub IsTimed-set_state :
    (now : ℕ) (id : List ℕ) (state : DtlsState) (sessions : List JoinerSession) (timer : Option ℕ)
    → IsTimed now sessions timer
    → IsTimed now (set_state id state sessions) timer
unfolding set_state
IsTimed-set_state now id state sessions none timed = rw timed refl
IsTimed-set_state now id state sessions (some time) timed = timed
