-- ===== src/Commissioner/Reachable.antt =====
-- What is true of every state that the commissioner of src/library/commissioner_impl.cpp reaches.
use ot_commissioner.Common.{
  ℕ, ◌≡◌, refl, sym, ap, subst, ◌∙◌, Bool, true, false, List, [], ◌∷◌, ◌++◌, All, Option, none,
  some, ErrorCode, Result, ok, err, died, Returns, returned, failed, either,
}
use ot_commissioner.Tlv.Types
use ot_commissioner.Tlv.{empty_tlv}
use ot_commissioner.Tlv.Message.{append_tlv}
use ot_commissioner.Commissioner.{
  State, disabled, petitioning, active, Pending, petition, keep_alive, Commissioner, Outcome,
  initial, is_active, send_built, send_keep_alive, keep_alive_timer, resign, is_disabled,
  post_petition, petition_built, send_petition, petition_connected, on_connected, Response,
  read_petition, read_state, petition_answered, keep_alive_answered,
}
use ot_commissioner.Commissioner.Responses.{read_petition-Returns, read_state-Returns}
use ot_commissioner.Commissioner.Invariant.{
  Consistent, IsConsistent, put_back, take_out, answer, Reaches, started, petitions, connects,
  answers_petition, answers_keep_alive, fires, resigns, disconnects, disconnect-IsConsistent,
  failed-IsConsistent, keep_alive_payload-Yields, post-IsConsistent,
}

with_timer :
    (s : State) (t : Bool) (pending : List Pending)
    → Consistent s t pending
    → Consistent s true pending
with_timer disabled t pending h = h
with_timer petitioning t pending h = h
with_timer active t pending (all, e) = (all, refl)

-- `SendKeepAlive`, whether the timer is running or not.
send-IsConsistent :
    (keep : Bool) (send : Option ErrorCode) (s : State) (n : ℕ) (t : Bool) (pending : List Pending)
    → Consistent s true pending
    → IsConsistent
        (send_keep_alive keep send
          (record { state = s; session_id = n; timer = t; pending = pending })).0
unfolding send_keep_alive is_active send_built
send-IsConsistent keep send disabled n t pending h = disconnect-IsConsistent _
send-IsConsistent keep send petitioning n t pending h = disconnect-IsConsistent _
send-IsConsistent keep send active n t pending (all, e) =
    let c : Commissioner = record {
      state = active;
      session_id = n;
      timer = t;
      pending = pending;
    } in
    subst (λ r. IsConsistent (send_built send c r).0) (sym (keep_alive_payload-Yields keep n).1)
      (post-IsConsistent send c refl all)

resign-IsConsistent : (send : Option ErrorCode) (c : Commissioner) → IsConsistent (resign send c).0
unfolding resign
resign-IsConsistent send c = disconnect-IsConsistent _

built :
    (r : Result (List ℕ)) (send : Option ErrorCode) (n : ℕ) (t : Bool) (pending : List Pending)
    → pending ≡ []
    → IsConsistent
        (petition_built send
          (record { state = disabled; session_id = n; timer = t; pending = pending })
          r).0
unfolding petition_built post_petition
built (ok payload) none n t pending h = ap (λ ps. ps ++ (petition ∷ [])) h
built (ok payload) (some error) n t pending h = h
built (err error) send n t pending h = h
built died send n t pending h = h

-- `SendPetition`: building the request does not abort.
petition-IsConsistent :
    (id : List ℕ) (send : Option ErrorCode) (s : State) (n : ℕ) (t : Bool) (pending : List Pending)
    → Consistent s t pending
    → IsConsistent
        (send_petition id send
          (record { state = s; session_id = n; timer = t; pending = pending })).0
unfolding send_petition is_disabled
petition-IsConsistent id send petitioning n t pending h = h
petition-IsConsistent id send active n t pending h = h
petition-IsConsistent id send disabled n t pending h =
    built (append_tlv [] (empty_tlv Types.commissioner_id id)) send n t pending h

some_inj : {A : Type 0} {a b : A} → some a ≡ some b → a ≡ b
some_inj e = cc

take_keep_alive-All :
    (pending rest : List Pending)
    → All (λ p. p ≡ keep_alive) pending
    → take_out keep_alive pending ≡ some rest
    → All (λ p. p ≡ keep_alive) rest
unfolding take_out
take_keep_alive-All [] rest all e = cc
take_keep_alive-All (keep_alive ∷ pending) rest (h, all) e =
    subst (All (λ p. p ≡ keep_alive)) (some_inj e) all
take_keep_alive-All (petition ∷ pending) rest (h, all) e = cc

keep_alives-petition :
    (pending : List Pending) → All (λ p. p ≡ keep_alive) pending → take_out petition pending ≡ none
unfolding take_out put_back
keep_alives-petition [] all = refl
keep_alives-petition (petition ∷ pending) (h, all) = absurd cc
keep_alives-petition (keep_alive ∷ pending) (h, all) = rw (keep_alives-petition pending all) refl

no_petition :
    (pending rest : List Pending)
    → All (λ p. p ≡ keep_alive) pending
    → take_out petition pending ≡ some rest
    → ⊥
no_petition pending rest all e = cc (keep_alives-petition pending all)

petition_alone :
    (s : State) (t : Bool) (pending rest : List Pending)
    → Consistent s t pending
    → take_out petition pending ≡ some rest
    → rest ≡ []
unfolding take_out
petition_alone disabled t pending rest h e = cc
petition_alone petitioning t pending rest h e = some_inj (sym e ∙ ap (take_out petition) h)
petition_alone active t pending rest (all, timer) e = absurd (no_petition pending rest all e)

petition_answered-IsConsistent :
    (r : Result ℕ) (c : Commissioner)
    → Returns r
    → c.pending ≡ []
    → IsConsistent (petition_answered r c).0
unfolding petition_answered
petition_answered-IsConsistent _ c (returned n) h =
    (subst (All (λ p. p ≡ keep_alive)) (sym h) tt, refl)
petition_answered-IsConsistent _ c (failed e) h = h

keep_alive_answered-IsConsistent :
    (r : Result (Unit {0})) (s : State) (n : ℕ) (t : Bool) (pending rest : List Pending)
    → Returns r
    → Consistent s t pending
    → take_out keep_alive pending ≡ some rest
    → IsConsistent
        (keep_alive_answered r (record { state = s; session_id = n; timer = t; pending = rest })).0
unfolding keep_alive_answered take_out put_back
keep_alive_answered-IsConsistent _ s n t pending rest (failed error) h e =
    failed-IsConsistent error _
keep_alive_answered-IsConsistent _ disabled n t pending rest (returned u) h e = cc
keep_alive_answered-IsConsistent _ petitioning n t pending rest (returned u) h e = cc
keep_alive_answered-IsConsistent _ active n t pending rest (returned u) (all, timer) e =
    (take_keep_alive-All pending rest all e, refl)

answer-Returns :
    {A : Type 0} (read : Response → Result A) (error : Option ErrorCode) (response : Response)
    → ((response : Response) → Returns (read response))
    → Returns (answer read error response)
unfolding answer
answer-Returns read none response h = h response
answer-Returns read (some error) response h = failed error

connected-IsConsistent :
    (id : List ℕ) (error send : Option ErrorCode) (c : Commissioner)
    → IsConsistent c
    → IsConsistent (on_connected id error send c).0
unfolding on_connected
connected-IsConsistent id none send c h =
    petition-IsConsistent id send c.state c.session_id c.timer c.pending h
connected-IsConsistent id (some error) send c h = h

-- In every state that the commissioner reaches, whatever is called, answered, sent or refused, in any
-- order: a disabled commissioner waits for no answer, one that petitions waits for the answer to
-- that petition alone, and the keep-alive timer of an active one is running.
pub Reaches-IsConsistent : {c : Commissioner} → Reaches c → IsConsistent c
unfolding initial petition_connected keep_alive_timer
Reaches-IsConsistent started = refl
Reaches-IsConsistent (petitions {c} reached id send) =
    either (λ (out : Outcome). IsConsistent out.0) (is_active c) (λ e. Reaches-IsConsistent reached)
      (λ e.
        petition-IsConsistent id send c.state c.session_id c.timer c.pending
          (Reaches-IsConsistent reached))
Reaches-IsConsistent (connects {c} reached id error send) =
    connected-IsConsistent id error send c (Reaches-IsConsistent reached)
Reaches-IsConsistent (answers_petition {c} reached rest e error response) =
    petition_answered-IsConsistent _ (record c { pending = rest })
      (answer-Returns read_petition error response read_petition-Returns)
      (petition_alone c.state c.timer c.pending rest (Reaches-IsConsistent reached) e)
Reaches-IsConsistent (answers_keep_alive {c} reached rest e error response) =
    keep_alive_answered-IsConsistent _ c.state c.session_id c.timer c.pending rest
      (answer-Returns read_state error response read_state-Returns) (Reaches-IsConsistent reached) e
Reaches-IsConsistent (fires {c} reached running send) =
    send-IsConsistent true send c.state c.session_id false c.pending
      (with_timer c.state c.timer c.pending (Reaches-IsConsistent reached))
Reaches-IsConsistent (resigns {c} reached send) = resign-IsConsistent send c
Reaches-IsConsistent (disconnects {c} reached) = disconnect-IsConsistent c
