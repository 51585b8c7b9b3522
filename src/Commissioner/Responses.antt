-- ===== src/Commissioner/Responses.antt =====
-- Reading the responses to a petition and to a keep-alive in src/library/commissioner_impl.cpp.
use ot_commissioner.Common.{
  ℕ, ◌≤◌, ◌≡◌, refl, sym, subst, rejected, coap_error, arith, true, List, ◌==◌, length, Option,
  none, some, Result, ok, err, died, ◌>>=◌, ◌>>◌, verify, bad_format, Returns, returned, failed,
  >>=-Returns, guard-Returns, verify-Returns, Yields,
}
use ot_commissioner.Bytes.{decode}
use ot_commissioner.Bytes.Bounds.{decode-Yields}
use ot_commissioner.Tlv.Types
use ot_commissioner.Tlv.Length.{exactly, allows, find_rule, mesh_cop_rules}
use ot_commissioner.Tlv.{
  Tlv, TlvSet, mesh_cop, no_tlvs, scope_rules, get_tlv_set, get_tlv, state_accept,
}
use ot_commissioner.Tlv.Bounds.{is_valid-allows}
use ot_commissioner.Tlv.Parse.{IsTlvSet, Ends, get_tlv_set-Ends, no_tlvs-IsTlvSet, get_tlv-is_valid}
use ot_commissioner.Dataset.Reading.{at_least}
use ot_commissioner.Commissioner.{
  Response, check_code, required, accepts, read_petition, read_state,
}

pub Yields-Returns : {A : Type 0} {r : Result A} → Yields r → Returns r
Yields-Returns (a, e) = subst Returns (sym e) (returned a)

Ends-Returns : (r : Result TlvSet) → Ends mesh_cop r → Returns r
Ends-Returns (ok set) h = returned set
Ends-Returns (err e) h = failed e
Ends-Returns died h = absurd h

pub required-Returns : (o : Option Tlv) → Returns (required o)
unfolding required
required-Returns none = failed bad_format
required-Returns (some tlv) = returned tlv

pub required-some : (o : Option Tlv) (tlv : Tlv) → required o ≡ ok tlv → o ≡ some tlv
unfolding required
required-some none tlv e = cc
required-some (some t) tlv e = cc

accepts-Returns : (tlv : Tlv) → 1 ≤ length tlv.value → Returns (accepts tlv)
unfolding accepts
accepts-Returns tlv h =
    >>=-Returns (Yields-Returns (decode-Yields 1 tlv.value h)) (λ n e. returned (n == state_accept))

module _ (set : TlvSet) (inv : IsTlvSet mesh_cop set) where
  after_set-Returns : Returns (do
    state ← required (set Types.state)
    accepted ← accepts state
    verify accepted rejected
    session_id ← required (set Types.commissioner_session_id)
    decode 2 session_id.value)
  unfolding find_rule mesh_cop_rules
  after_set-Returns = >>=-Returns (required-Returns (set Types.state)) (λ state found.
      >>=-Returns
        (accepts-Returns state
          (at_least set inv Types.state 1 1 (omega arith) refl state (required-some _ state found)))
        (λ accepted e. guard-Returns accepted rejected _ (
          >>=-Returns (required-Returns (set Types.commissioner_session_id)) (λ id there.
            Yields-Returns (
              decode-Yields 2 id.value (
                at_least set inv Types.commissioner_session_id 2 2 (omega arith) refl id
                  (required-some _ id there)))))))

set-ok :
    (payload : List ℕ) (set : TlvSet)
    → get_tlv_set mesh_cop no_tlvs payload ≡ ok set
    → IsTlvSet mesh_cop set
set-ok payload set e =
    subst (Ends mesh_cop) e (get_tlv_set-Ends mesh_cop no_tlvs payload (no_tlvs-IsTlvSet mesh_cop))

-- Reading the response to a petition ends with a session id or an error, whatever the payload: no TLV
-- is read out of its bounds.
pub read_petition-Returns : (response : Response) → Returns (read_petition response)
unfolding read_petition check_code
read_petition-Returns response = guard-Returns _ coap_error _ (
    >>=-Returns
      (Ends-Returns _
        (get_tlv_set-Ends mesh_cop no_tlvs response.payload (no_tlvs-IsTlvSet mesh_cop)))
      (λ set e. after_set-Returns set (set-ok response.payload set e)))

state_bytes : (tlv : Tlv) → allows (exactly 1) (length tlv.value) ≡ true → 1 ≤ length tlv.value
unfolding allows
state_bytes tlv h = ground arith

state_length :
    (payload : List ℕ) (tlv : Tlv)
    → get_tlv Types.state mesh_cop payload ≡ some tlv
    → 1 ≤ length tlv.value
unfolding find_rule mesh_cop_rules scope_rules
state_length payload tlv e =
    let (valid, scope, type) = get_tlv-is_valid Types.state mesh_cop payload tlv e in
    state_bytes tlv (is_valid-allows tlv (exactly 1) valid (rw (scope, type) refl))

pub read_state-Returns : (response : Response) → Returns (read_state response)
unfolding read_state check_code
read_state-Returns response = guard-Returns _ coap_error _ (
    >>=-Returns (required-Returns (get_tlv Types.state mesh_cop response.payload)) (λ state found.
      >>=-Returns
        (accepts-Returns state (state_length response.payload state (required-some _ state found)))
        (λ accepted e. verify-Returns accepted rejected)))
