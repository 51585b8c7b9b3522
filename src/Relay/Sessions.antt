-- ===== src/Relay/Sessions.antt =====
-- The sessions of the joiners in src/library/commissioner_impl.cpp, after any sequence of what happens to
-- them, with the application of src/app/commissioner_app.cpp that is asked for the PSKds.
pub mod Lists
pub mod Invariant
use ot_commissioner.Common.{
  ℕ, zero, suc, ◌+◌, ◌≤◌, ◌≡◌, refl, sym, subst, ap, ◌∙◌, arith, Bool, true, false, List, [], ◌∷◌,
  All, Option, none, some, Result, ok, err, died, ErrorCode, Ensures, Ensures-ok, ltb, leb, ==_iff,
  ◌==◌, ◌&&◌, if◌then◌else◌, either, Bool-cases, Option-cases, inl, inr, ◌⊎◌,
}
use mathlib.Core.Path.{ap₂}
use ot_commissioner.Coap.Client.Exchange.{is_token_equal}
use ot_commissioner.App.{App}
use ot_commissioner.App.Joiners.{validate_pskd, on_joiner_request}
use ot_commissioner.App.Joiners.Reachable.{Operates, on_joiner_request_checked}
use ot_commissioner.Relay.{
  DtlsState, JoinerSession, Relay, RelayEvent, RlyRx, session_lifetime, read_rly_rx, find_session,
  erase_session, session_disabled, drop_disabled, new_session, connect_session, admit_joiner,
  relay_records, after_read, handle_rly_rx, earlier, handle_joiner_session_timer,
}
use ot_commissioner.Relay.Timer.{
  unexpired, earliest, earlier-cases, earliest-some, handle_timer_lem,
}

-- The state of a session in DTLS changes.
unfoldable pub set_state : List ℕ → DtlsState → List JoinerSession → List JoinerSession
set_state id state [] = []
set_state id state (s ∷ sessions) =
    if is_token_equal s.joiner_id id
    then record s { dtls_state = state } ∷ sessions
    else s ∷ set_state id state sessions

-- How many sessions a joiner has.
unfoldable pub count : List ℕ → List JoinerSession → ℕ
count id [] = 0
count id (s ∷ sessions) = (if is_token_equal s.joiner_id id then 1 else 0) + count id sessions

abbrev pub IsSession : ℕ → JoinerSession → Type 0
IsSession now s =
    (validate_pskd s.joiner_pskd ≡ ok tt) × (s.expiration_time ≤ now + session_lifetime)

-- The timer runs where there is a session, and not later than the lifetime of a session from now.
abbrev pub IsTimed : ℕ → List JoinerSession → Option ℕ → Type 0
IsTimed now sessions none = sessions ≡ []
IsTimed now sessions (some time) = time ≤ now + session_lifetime

abbrev pub AreSessions : ℕ → List JoinerSession → Type 0
AreSessions now sessions = All (IsSession now) sessions × ((id : List ℕ) → count id sessions ≤ 1)

abbrev pub IsRelay : ℕ → Relay → Type 0
IsRelay now relay = AreSessions now relay.sessions × IsTimed now relay.sessions relay.timer

module _ (compute_joiner_id : ℕ → List ℕ) where
  -- What happens to the sessions, in the order of the times. The application that is asked for a PSKd
  -- is any one that its operations lead to.
  pub data Relays : ℕ → Relay → Type 0 where
    idle : (now : ℕ) → Relays now (record { sessions = []; timer = none })
    waits :
        {now : ℕ} {relay : Relay}
        → Relays now relay
        → (later : ℕ) → now ≤ later
        → Relays later relay
    receives :
        {now : ℕ} {relay : Relay}
        → Relays now relay
        → (app : App) → Operates compute_joiner_id app
        → (state : DtlsState) (local_addr : Option ErrorCode) (payload : List ℕ)
          (out : List RelayEvent × Relay)
        → handle_rly_rx
            (λ id. on_joiner_request compute_joiner_id id app)
            now
            state
            local_addr
            payload
            relay
          ≡ ok out
        → Relays now out.1
    times_out :
        {now : ℕ} {relay : Relay}
        → Relays now relay
        → (time : ℕ) → relay.timer ≡ some time
        → time ≤ now
        → Relays now (handle_joiner_session_timer now relay)
    changes :
        {now : ℕ} {relay : Relay}
        → Relays now relay
        → (id : List ℕ) (state : DtlsState)
        → Relays now (record relay { sessions = set_state id state relay.sessions })
