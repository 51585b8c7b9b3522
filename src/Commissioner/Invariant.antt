-- ===== src/Commissioner/Invariant.antt =====
-- The commissioner of src/library/commissioner_impl.cpp as a state machine.
use ot_commissioner.Common.{
  ℕ, ◌≡◌, refl, sym, subst, Bool, true, false, List, [], ◌∷◌, ◌++◌, All, Option, none, some,
  ErrorCode, Result, err, >>=-eq, if◌then◌else◌, Yields,
}
use ot_commissioner.Bytes.{encode}
use ot_commissioner.Tlv.Types
use ot_commissioner.Tlv.Length.{find_rule, mesh_cop_rules, allows}
use ot_commissioner.Tlv.{is_valid, scope_rules, empty_tlv, state_accept, state_reject}
use ot_commissioner.Tlv.Message.{append_tlv-wire}
use ot_commissioner.Commissioner.{
  State, disabled, petitioning, active, Pending, petition, keep_alive, Commissioner, initial,
  cancel_all, disconnect, keep_alive_failed, keep_alive_payload, post_keep_alive, keep_alive_timer,
  resign, petition_connected, on_connected, Response, read_petition, read_state, petition_answered,
  keep_alive_answered,
}

-- A disabled commissioner waits for nothing; one that petitions waits for the answer to that petition;
-- an active one waits for answers to keep-alives alone, and its timer is running.
abbrev pub Consistent : State → Bool → List Pending → Type 0
Consistent disabled timer pending = pending ≡ []
Consistent petitioning timer pending = pending ≡ petition ∷ []
Consistent active timer pending = All (λ p. p ≡ keep_alive) pending × (timer ≡ true)

abbrev pub IsConsistent : Commissioner → Type 0
IsConsistent c = Consistent c.state c.timer c.pending

unfoldable pub put_back : Pending → Option (List Pending) → Option (List Pending)
put_back p none = none
put_back p (some rest) = some (p ∷ rest)

-- The first request of a kind, taken out of those that wait.
unfoldable pub take_out : Pending → List Pending → Option (List Pending)
take_out p [] = none
take_out petition (petition ∷ pending) = some pending
take_out keep_alive (keep_alive ∷ pending) = some pending
take_out petition (keep_alive ∷ pending) = put_back keep_alive (take_out petition pending)
take_out keep_alive (petition ∷ pending) = put_back petition (take_out keep_alive pending)

-- The answer to a request: an error, or what is read from the response.
unfoldable pub answer {ℓ} :
    {A : Type ℓ} → (Response → Result A) → Option ErrorCode → Response → Result A
answer read (some error) response = err error
answer read none response = read response

pub data Reaches : Commissioner → Type 0 where
  started : Reaches initial
  petitions :
      {c : Commissioner}
      → Reaches c
      → (id : List ℕ) (send : Option ErrorCode) → Reaches (petition_connected id send c).0
  connects :
      {c : Commissioner}
      → Reaches c
      → (id : List ℕ) (error send : Option ErrorCode) → Reaches (on_connected id error send c).0
  answers_petition :
      {c : Commissioner}
      → Reaches c
      → (rest : List Pending) → take_out petition c.pending ≡ some rest
      → (error : Option ErrorCode) (response : Response)
      → Reaches
          (petition_answered (answer read_petition error response) (record c { pending = rest })).0
  answers_keep_alive :
      {c : Commissioner}
      → Reaches c
      → (rest : List Pending) → take_out keep_alive c.pending ≡ some rest
      → (error : Option ErrorCode) (response : Response)
      → Reaches
          (keep_alive_answered (answer read_state error response) (record c { pending = rest })).0
  fires :
      {c : Commissioner}
      → Reaches c
      → c.timer ≡ true
      → (send : Option ErrorCode) → Reaches (keep_alive_timer send c).0
  resigns : {c : Commissioner} → Reaches c → (send : Option ErrorCode) → Reaches (resign send c).0
  disconnects : {c : Commissioner} → Reaches c → Reaches (disconnect c).0

pub cancel_all-pending :
    (pending : List Pending) (c : Commissioner) → (cancel_all pending c).0.pending ≡ c.pending
unfolding cancel_all
cancel_all-pending [] c = refl
cancel_all-pending (petition ∷ pending) c =
    cancel_all-pending pending (record c { state = disabled })
cancel_all-pending (keep_alive ∷ pending) c =
    cancel_all-pending pending (record c { state = disabled; timer = false })

pub disconnect-IsConsistent : (c : Commissioner) → IsConsistent (disconnect c).0
unfolding disconnect
disconnect-IsConsistent c = cancel_all-pending c.pending (record c { pending = [] })

pub failed-IsConsistent :
    (error : ErrorCode) (c : Commissioner) → IsConsistent (keep_alive_failed error c).0
unfolding keep_alive_failed
failed-IsConsistent error c = disconnect-IsConsistent (record c { state = disabled; timer = false })

-- The payload of a keep-alive is always built.
pub keep_alive_payload-Yields :
    (keep : Bool) (session_id : ℕ) → Yields (keep_alive_payload keep session_id)
unfolding keep_alive_payload
keep_alive_payload-Yields keep session_id = (
  _,
  >>=-eq _
      (append_tlv-wire []
        (empty_tlv Types.state ((if keep then state_accept else state_reject) ∷ []))
        (unfold is_valid find_rule mesh_cop_rules allows scope_rules in refl))
      (append_tlv-wire _ (empty_tlv Types.commissioner_session_id (encode 2 [] session_id))
        (unfold is_valid find_rule mesh_cop_rules allows scope_rules encode in refl)),
)

All-append_one :
    (pending : List Pending)
    → All (λ p. p ≡ keep_alive) pending
    → All (λ p. p ≡ keep_alive) (pending ++ (keep_alive ∷ []))
All-append_one [] all = (refl, tt)
All-append_one (p ∷ pending) (h, all) = (h, All-append_one pending all)

pub post-IsConsistent :
    (send : Option ErrorCode) (c : Commissioner)
    → c.state ≡ active
    → All (λ p. p ≡ keep_alive) c.pending
    → IsConsistent (post_keep_alive send (record c { timer = true })).0
unfolding post_keep_alive
post-IsConsistent none c e all =
    subst (λ s. Consistent s true (c.pending ++ (keep_alive ∷ []))) (sym e)
      (All-append_one c.pending all, refl)
post-IsConsistent (some error) c e all = failed-IsConsistent error (record c { timer = true })
