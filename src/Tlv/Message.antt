-- ===== src/Tlv/Message.antt =====
-- A payload built by AppendTlv of src/library/commissioner_impl.cpp, read back by GetTlvSet; the
-- total length and the dataset parameters of src/library/tlv.cpp.
use mathlib.Core.List.{append_assoc, append-nil}
use ot_commissioner.Common.{
  ℕ, zero, suc, ◌+◌, ◌^◌, ◌<◌, ◌≤◌, ◌≡◌, refl, arith, true, false, ◌&&◌, List, [], ◌∷◌, ◌++◌,
  length, ltb, if◌then◌else◌, ◌⊎◌, inl, inr, Bool-cases, ap, ◌∙◌, sym, length-append, ok, err,
  invalid_args, ◌>>=◌, ◌>>◌, Result, verify, All,
}
use ot_commissioner.Tlv.Types
use ot_commissioner.Tlv.Bounds.{is_valid-LengthFits, LengthFits}
use ot_commissioner.Tlv.RoundTrip.{wire, serialize-wire, deserialize-wire}
use ot_commissioner.Tlv.{
  Tlv, Scope, TlvSet, is_extended_tlv, is_valid, serialize, deserialize, insert_tlv, keep_valid,
  get_tlv_set_loop, get_tlv_set, get_total_length,
}

-- `AppendTlv`, on the payload of the message.
unfoldable pub append_tlv : List ℕ → Tlv → Result (List ℕ)
append_tlv payload tlv = do
  verify (is_valid tlv) invalid_args
  buf ← serialize tlv []
  ok (payload ++ buf)

-- The TLVs that a message is built of, one call after the other.
unfoldable pub append_tlvs : List ℕ → List Tlv → Result (List ℕ)
append_tlvs payload [] = ok payload
append_tlvs payload (tlv ∷ tlvs) = do next ← append_tlv payload tlv; append_tlvs next tlvs

-- What the encoding of a TLV needs to be read back.
abbrev pub IsSendable : Scope → Tlv → Type 0
IsSendable scope tlv =
    (tlv.scope ≡ scope)
    × (is_valid tlv ≡ true)
    × (tlv.type ≡ Types.domain_prefix → length tlv.value < 255)

-- Later TLVs replace earlier ones of their type.
unfoldable pub insert_all : TlvSet → List Tlv → TlvSet
insert_all set [] = set
insert_all set (tlv ∷ tlvs) = insert_all (insert_tlv tlv set) tlvs

unfoldable pub wires : List Tlv → List ℕ
wires [] = []
wires (tlv ∷ tlvs) = wire tlv ++ wires tlvs

pub append_tlv-wire :
    (payload : List ℕ) (tlv : Tlv)
    → is_valid tlv ≡ true
    → append_tlv payload tlv ≡ ok (payload ++ wire tlv)
unfolding append_tlv
append_tlv-wire payload tlv valid = rw (valid, serialize-wire tlv [] valid)

pub append_tlvs-wires :
    (scope : Scope) (payload : List ℕ) (tlvs : List Tlv)
    → All (IsSendable scope) tlvs
    → append_tlvs payload tlvs ≡ ok (payload ++ wires tlvs)
unfolding append_tlvs wires
append_tlvs-wires scope payload [] all = ap ok (sym (append-nil payload))
append_tlvs-wires scope payload (tlv ∷ tlvs) (one, all) = rw (append_tlv-wire payload tlv one.1) (
    append_tlvs-wires scope (payload ++ wire tlv) tlvs all
    ∙ ap ok (append_assoc payload (wire tlv) (wires tlvs)))

length-wire : (tlv : Tlv) → 2 ≤ length (wire tlv)
unfolding wire
length-wire tlv = ground arith

keep_valid_lem :
    (tlv : Tlv) (set : TlvSet) → is_valid tlv ≡ true → keep_valid tlv set ≡ insert_tlv tlv set
unfolding keep_valid
keep_valid_lem tlv set valid = rw valid

loop_round :
    (fuel : ℕ) (scope : Scope) (set : TlvSet) (tlv : Tlv) (bytes rest : List ℕ)
    → deserialize scope bytes ≡ ok (tlv, rest)
    → is_valid tlv ≡ true
    → 0 < length bytes
    → get_tlv_set_loop (suc fuel) scope set bytes
      ≡ get_tlv_set_loop fuel scope (insert_tlv tlv set) rest
unfolding get_tlv_set_loop
loop_round fuel scope set tlv [] rest e valid h = absurd (omega arith)
loop_round fuel scope set tlv (b ∷ bytes) rest e valid h =
    rw e (ap (λ (s : TlvSet). get_tlv_set_loop fuel scope s rest) (keep_valid_lem tlv set valid))

get_tlv_set_loop-wires :
    (fuel : ℕ) (scope : Scope) (set : TlvSet) (tlvs : List Tlv)
    → length (wires tlvs) ≤ fuel
    → All (IsSendable scope) tlvs
    → get_tlv_set_loop fuel scope set (wires tlvs) ≡ ok (insert_all set tlvs)
unfolding wires insert_all
get_tlv_set_loop-wires fuel scope set [] h all = unfold get_tlv_set_loop in refl
get_tlv_set_loop-wires zero scope set (tlv ∷ tlvs) h all =
    absurd (omega (arith, length-wire tlv, length-append (wire tlv) (wires tlvs)))
get_tlv_set_loop-wires (suc fuel) scope set (tlv ∷ tlvs) h ((s, valid, prefix), all) =
    loop_round fuel scope set tlv (wire tlv ++ wires tlvs) (wires tlvs)
      (ap (λ (c : Scope). deserialize c (wire tlv ++ wires tlvs)) (sym s)
        ∙ deserialize-wire tlv (wires tlvs) (is_valid-LengthFits tlv valid) prefix)
      valid (omega (arith, length-wire tlv, length-append (wire tlv) (wires tlvs)))
    ∙ get_tlv_set_loop-wires fuel scope (insert_tlv tlv set) tlvs
        (omega (arith, length-wire tlv, length-append (wire tlv) (wires tlvs))) all

-- A payload built by appending valid TLVs of one scope, no Domain Prefix TLV of 255 bytes or more
-- among them, parses to exactly those TLVs, the last of each type.
pub get_tlv_set-append_tlvs :
    (scope : Scope) (set : TlvSet) (tlvs : List Tlv)
    → All (IsSendable scope) tlvs
    → (payload : List ℕ) × (append_tlvs [] tlvs ≡ ok payload)
      × (get_tlv_set scope set payload ≡ ok (insert_all set tlvs))
unfolding get_tlv_set
get_tlv_set-append_tlvs scope set tlvs all = (
  wires tlvs,
  append_tlvs-wires scope [] tlvs all,
  get_tlv_set_loop-wires (length (wires tlvs)) scope set tlvs (omega arith) all,
)

-- `AppendTlv` never aborts, and appends nothing but a valid TLV.
pub append_tlv_cases :
    (payload : List ℕ) (tlv : Tlv)
    → ((is_valid tlv ≡ true) × (append_tlv payload tlv ≡ ok (payload ++ wire tlv)))
      ⊎ ((is_valid tlv ≡ false) × (append_tlv payload tlv ≡ err invalid_args))
append_tlv_cases payload tlv = elim (Bool-cases (is_valid tlv)) [
  | inl valid ↦ inl (valid, append_tlv-wire payload tlv valid)
  | inr bad ↦ inr (bad, unfold append_tlv in rw bad)
]

length-wire-total :
    (tlv : Tlv)
    → LengthFits tlv
    → (tlv.type ≡ Types.domain_prefix → length tlv.value < 255)
    → length tlv.value + 4 < 2 ^ 16
    → length (wire tlv)
      ≡ get_total_length tlv
        + (if is_extended_tlv tlv.type && ltb (length tlv.value) 255 then 2 else 0)
unfolding wire get_total_length
length-wire-total tlv fits prefix h = ground arith

-- For a valid TLV `GetTotalLength` is the length of what `Serialize` writes, but for an extended type
-- with fewer than 255 bytes it is two less.
pub get_total_length_lem :
    (tlv : Tlv)
    → is_valid tlv ≡ true
    → (tlv.type ≡ Types.domain_prefix → length tlv.value < 255)
    → length tlv.value + 4 < 2 ^ 16
    → (bytes : List ℕ) × (serialize tlv [] ≡ ok bytes)
      × (length bytes
          ≡ get_total_length tlv
            + (if is_extended_tlv tlv.type && ltb (length tlv.value) 255 then 2 else 0))
get_total_length_lem tlv valid prefix h = (
  wire tlv,
  serialize-wire tlv [] valid,
  length-wire-total tlv (is_valid-LengthFits tlv valid) prefix h,
)
