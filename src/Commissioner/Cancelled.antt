-- ===== src/Commissioner/Cancelled.antt =====
-- `CommissionerImpl::Disconnect` of src/library/commissioner_impl.cpp: whose handlers it calls.
use ot_commissioner.Common.{ℕ, ◌+◌, ◌≡◌, refl, arith, List, [], ◌∷◌, ◌++◌, some, cancelled, false}
use ot_commissioner.Commissioner.Invariant.{cancel_all-pending}
use ot_commissioner.Commissioner.{
  disabled, Pending, petition, keep_alive, Commissioner, Event, petition_done, keep_alive_done,
  resigned, cancel_all, disconnect,
}

-- How many petitions and how many keep-alives wait.
unfoldable pub waiting : List Pending → ℕ × ℕ
waiting [] = (0, 0)
waiting (petition ∷ pending) = ((waiting pending).0 + 1, (waiting pending).1)
waiting (keep_alive ∷ pending) = ((waiting pending).0, (waiting pending).1 + 1)

-- How many of each are answered.
unfoldable pub answered : List Event → ℕ × ℕ
answered [] = (0, 0)
answered (petition_done error ∷ events) = ((answered events).0 + 1, (answered events).1)
answered (keep_alive_done error ∷ events) = ((answered events).0, (answered events).1 + 1)
answered (resigned ∷ events) = answered events

answered-append :
    (events more : List Event)
    → ((answered (events ++ more)).0 ≡ (answered events).0 + (answered more).0)
      × ((answered (events ++ more)).1 ≡ (answered events).1 + (answered more).1)
unfolding answered
answered-append [] more = (omega arith, omega arith)
answered-append (petition_done error ∷ events) more =
    (omega (arith, (answered-append events more).0), (answered-append events more).1)
answered-append (keep_alive_done error ∷ events) more =
    ((answered-append events more).0, omega (arith, (answered-append events more).1))
answered-append (resigned ∷ events) more = answered-append events more

cancel_all-waiting :
    (pending : List Pending) (c : Commissioner)
    → ((answered (cancel_all pending c).1).0 ≡ (waiting pending).0)
      × ((answered (cancel_all pending c).1).1 ≡ (waiting pending).1)
unfolding cancel_all answered waiting
cancel_all-waiting [] c = (refl, refl)
cancel_all-waiting (petition ∷ pending) c =
    let (p, k) = cancel_all-waiting pending (record c { state = disabled }) in (omega (arith, p), k)
cancel_all-waiting (keep_alive ∷ pending) c =
    let d : Commissioner = record c { state = disabled; timer = false } in
    let (p, k) = cancel_all-waiting pending d in
    let (p', k') =
      answered-append (cancel_all pending d).1 (keep_alive_done (some cancelled) ∷ []) in
    (omega (arith, p, p'), omega (arith, k, k'))

-- `Disconnect` leaves the commissioner disabled, with nothing that waits, and has called the handler
-- of each petition and of each keep-alive that waited, as often as there were any.
pub disconnect-waiting :
    (c : Commissioner)
    → ((disconnect c).0.state ≡ disabled)
      × ((disconnect c).0.pending ≡ [])
      × ((answered (disconnect c).1).0 ≡ (waiting c.pending).0)
      × ((answered (disconnect c).1).1 ≡ (waiting c.pending).1)
unfolding disconnect
disconnect-waiting c =
    let d : Commissioner = record c { pending = [] } in
    let (p, k) = cancel_all-waiting c.pending d in (refl, cancel_all-pending c.pending d, p, k)
