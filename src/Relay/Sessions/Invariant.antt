-- ===== src/Relay/Sessions/Invariant.antt =====
-- The invariant of the sessions of the joiners, for HandleRlyRx and HandleJoinerSessionTimer of src/library/commissioner_impl.cpp.
use ot_commissioner.Common.{
  no_bytes, ℕ, ◌≡◌, refl, sym, subst, arith, false, List, [], ◌∷◌, All, Option, none, some, Result,
  ok, err, died, ErrorCode, Ensures, Ensures-ok, either, Bool-cases, inl, inr, ◌⊎◌,
}
use ot_commissioner.Coap.Client.Exchange.{is_token_equal}
use ot_commissioner.App.Joiners.{validate_pskd, on_joiner_request}
use ot_commissioner.App.Joiners.Reachable.{on_joiner_request_checked}
use ot_commissioner.Relay.{
  DtlsState, JoinerSession, Relay, RelayEvent, RlyRx, read_rly_rx, find_session, drop_disabled,
  new_session, connect_session, admit_joiner, relay_records, after_read, handle_rly_rx,
  handle_joiner_session_timer,
}
use ot_commissioner.Relay.Timer.{unexpired, earliest, handle_timer_lem}
use ot_commissioner.Relay.Sessions.{
  count, IsSession, IsTimed, AreSessions, IsRelay, Relays, idle, waits, receives, times_out,
  changes,
}
use ot_commissioner.Relay.Sessions.Lists.{
  token_eq, IsSession-later, count-unexpired, count-set_state, count-none, All-unexpired,
  All-set_state, dropped-AreSessions, IsTimed-dropped, earliest-bound, not_nothing, no_next,
  IsTimed-later, IsTimed-set_state,
}

module _ (now : ℕ) (ask : List ℕ → List ℕ)
    (checked : (id : List ℕ) → (ask id ≡ []) ⊎ (validate_pskd (ask id) ≡ ok tt)) where
  new-AreSessions :
      (state : DtlsState) (rx : RlyRx) (sessions : List JoinerSession)
      → no_bytes (ask rx.id) ≡ false
      → find_session rx.id sessions ≡ none
      → AreSessions now sessions
      → AreSessions now (new_session now state (ask rx.id) rx ∷ sessions)
  unfolding new_session count
  new-AreSessions state rx sessions some_pskd fresh (all, once) = (
    (
      (
        elim (checked rx.id) [
          | inl empty ↦ absurd (not_nothing (ask rx.id) some_pskd empty)
          | inr valid ↦ valid
        ],
        omega arith,
      ),
      all,
    ),
    λ id. elim (Bool-cases (is_token_equal rx.id id)) [
      | inl e ↦ rw e (
          omega (
            arith,
            subst (λ i. count i sessions ≡ 0) (token_eq rx.id id e)
                (count-none rx.id sessions fresh),
          ))
      | inr e ↦ rw e (omega (arith, once id))
    ],
  )

  connected-IsRelay :
      (state : DtlsState) (local_addr : Option ErrorCode) (rx : RlyRx) (relay : Relay)
      → no_bytes (ask rx.id) ≡ false
      → find_session rx.id relay.sessions ≡ none
      → IsRelay now relay
      → IsRelay now (connect_session ask now state local_addr rx relay).1
  unfolding connect_session
  connected-IsRelay state (some error) rx relay some_pskd fresh is = is
  connected-IsRelay state none rx relay some_pskd fresh (are, timed) =
      (new-AreSessions state rx relay.sessions some_pskd fresh are, omega arith)

  admitted-IsRelay :
      (state : DtlsState) (local_addr : Option ErrorCode) (rx : RlyRx) (relay : Relay)
      → find_session rx.id relay.sessions ≡ none
      → IsRelay now relay
      → IsRelay now (admit_joiner ask now state local_addr rx relay).1
  unfolding admit_joiner
  admitted-IsRelay state local_addr rx relay fresh is =
      either (λ (out : List RelayEvent × Relay). IsRelay now out.1) (no_bytes (ask rx.id)) (λ e. is)
        (λ e. connected-IsRelay state local_addr rx relay e fresh is)

  found-IsRelay :
      (state : DtlsState) (local_addr : Option ErrorCode) (rx : RlyRx) (relay : Relay)
      (found : Option JoinerSession)
      → find_session rx.id relay.sessions ≡ found
      → IsRelay now relay
      → IsRelay now
          (elim found as (λ o. List RelayEvent × Relay) [
            | none ↦ admit_joiner ask now state local_addr rx relay
            | some s ↦ (RelayEvent.records rx.id rx.dtls_records ∷ [], relay)
          ]).1
  found-IsRelay state local_addr rx relay none e is =
      admitted-IsRelay state local_addr rx relay e is
  found-IsRelay state local_addr rx relay (some s) e is = is

  relayed-IsRelay :
      (state : DtlsState) (local_addr : Option ErrorCode) (rx : RlyRx) (relay : Relay)
      → IsRelay now relay
      → IsRelay now (relay_records ask now state local_addr rx relay).1
  unfolding relay_records
  relayed-IsRelay state local_addr rx relay (are, timed) =
      let kept = record relay { sessions = drop_disabled rx.id relay.sessions } in
      found-IsRelay state local_addr rx kept (find_session rx.id kept.sessions) refl (
        dropped-AreSessions now rx.id relay.sessions are,
        IsTimed-dropped now rx.id relay.sessions relay.timer timed,
      )

  read-IsRelay :
      (state : DtlsState) (local_addr : Option ErrorCode) (relay : Relay) (read : Result RlyRx)
      → IsRelay now relay
      → Ensures
          (λ (out : List RelayEvent × Relay). IsRelay now out.1)
          (after_read ask now state local_addr relay read)
  unfolding after_read
  read-IsRelay state local_addr relay (ok rx) is = relayed-IsRelay state local_addr rx relay is
  read-IsRelay state local_addr relay (err error) is = is
  read-IsRelay state local_addr relay died is = tt

expired-IsRelay :
    (now time : ℕ) (relay : Relay)
    → IsRelay now relay
    → IsRelay now (handle_joiner_session_timer time relay)
expired-IsRelay now time relay ((all, once), timed) =
    subst (IsRelay now) (sym (handle_timer_lem time relay)) (
      (
        All-unexpired now time relay.sessions all,
        λ id. omega (arith, once id, count-unexpired id time relay.sessions),
      ),
      timed_by (earliest (unexpired time relay.sessions) none) refl
          (All-unexpired now time relay.sessions all),
    )
  where
    timed_by :
        (next : Option ℕ)
        → earliest (unexpired time relay.sessions) none ≡ next
        → All (IsSession now) (unexpired time relay.sessions)
        → IsTimed now (unexpired time relay.sessions) next
    timed_by none e all = no_next (unexpired time relay.sessions) e
    timed_by (some t) e all =
        earliest-bound now (unexpired time relay.sessions) none t all (λ u f. absurd cc) e

module _ (compute_joiner_id : ℕ → List ℕ) where
  -- Whatever messages come in, whatever DTLS does, and whatever joiners the application enables in the
  -- meantime: each session has a PSKd that ValidatePSKd lets pass and expires within the lifetime of a
  -- session, no joiner has two, and where there is a session the timer runs, at a time within that
  -- lifetime.
  pub Relays-IsRelay :
      {now : ℕ} {relay : Relay} → Relays compute_joiner_id now relay → IsRelay now relay
  unfolding count handle_rly_rx
  Relays-IsRelay (idle now) = ((tt, λ id. omega arith), refl)
  Relays-IsRelay (waits {now} {relay} run later le) =
      let ((all, once), timed) = Relays-IsRelay run in
      (
        (IsSession-later now later relay.sessions le all, once),
        IsTimed-later now later relay.sessions relay.timer le timed,
      )
  Relays-IsRelay (receives {now} {relay} run app operated state local_addr payload out e) =
      let ask = λ (id : List ℕ). on_joiner_request compute_joiner_id id app in
      Ensures-ok (λ (out : List RelayEvent × Relay). IsRelay now out.1) e
        (read-IsRelay now ask (λ id. on_joiner_request_checked compute_joiner_id id operated) state
          local_addr relay (read_rly_rx payload) (Relays-IsRelay run))
  Relays-IsRelay (times_out {now} {relay} run time e le) =
      expired-IsRelay now now relay (Relays-IsRelay run)
  Relays-IsRelay (changes {now} {relay} run id state) =
      let ((all, once), timed) = Relays-IsRelay run in
      (
        (
          All-set_state now id state relay.sessions all,
          λ i. omega (arith, once i, count-set_state i id state relay.sessions),
        ),
        IsTimed-set_state now id state relay.sessions relay.timer timed,
      )
