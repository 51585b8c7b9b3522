-- ===== src/Tlv/Parse.antt =====
-- `Tlv::Deserialize`, `GetTlvSet` and `GetTlv` of src/library/tlv.cpp on any input.
use ot_commissioner.Common.{
  ℕ, zero, suc, ◌+◌, ◌*◌, ◌%◌, ◌^◌, ◌≤◌, ◌≡◌, refl, arith, true, List, [], ◌∷◌, ◌++◌, length, leb,
  ◌==◌, ◌⊎◌, FailsWith, FailsWith-cases, inl, inr, Bool-cases, length-append, length-take,
  length-drop, ok, err, died, bad_format, ◌≢◌, Result, some,
}
use ot_commissioner.Tlv.Types
use ot_commissioner.Tlv.Length.{escape_length}
use ot_commissioner.Tlv.RoundTrip.{wire, serialize-wire}
use ot_commissioner.Tlv.{
  Tlv, Scope, TlvSet, is_extended_tlv, is_valid, serialize, take_value, take_extended, deserialize,
  no_tlvs, insert_tlv, keep_valid, get_tlv_set_loop, get_tlv_set, get_tlv, found_in,
}

-- How many bytes a parsed TLV took: its value, and a header of two bytes or, behind the escape, four.
abbrev pub Takes : ℕ → ℕ → Tlv → List ℕ → Type 0
Takes len size tlv rest =
    ((len ≢ 255) × (length tlv.value ≡ len) × (size ≡ 2 + length tlv.value + length rest))
    ⊎ ((len ≡ 255) × (size ≡ 4 + length tlv.value + length rest))

take_value_takes :
    (scope : Scope) (type len : ℕ) (bytes : List ℕ) {tlv : Tlv} {rest : List ℕ}
    → take_value scope type len bytes ≡ ok (tlv, rest)
    → (tlv.scope ≡ scope)
      × (tlv.type ≡ type)
      × (length tlv.value ≡ len)
      × (length bytes ≡ len + length rest)
unfolding take_value
take_value_takes scope type len bytes e =
    ground (arith, length-take len bytes, length-drop len bytes)

take_extended_takes :
    (scope : Scope) (type : ℕ) (bytes : List ℕ) {tlv : Tlv} {rest : List ℕ}
    → take_extended scope type bytes ≡ ok (tlv, rest)
    → (tlv.scope ≡ scope) × (tlv.type ≡ type) × (length bytes ≡ 2 + length tlv.value + length rest)
unfolding take_extended
take_extended_takes scope type [] e = cc
take_extended_takes scope type (hi ∷ []) e = cc
take_extended_takes scope type (hi ∷ lo ∷ bytes) e =
    ground (arith, take_value_takes scope type (hi * 2 ^ 8 + lo) bytes e)

pub deserialize_cut :
    (scope : Scope) (type len : ℕ) (bytes : List ℕ) {tlv : Tlv} {rest : List ℕ}
    → deserialize scope (type ∷ len ∷ bytes) ≡ ok (tlv, rest)
    → (tlv.scope ≡ scope) × (tlv.type ≡ type) × Takes len (2 + length bytes) tlv rest
unfolding deserialize
deserialize_cut scope type len bytes {tlv} {rest} e = elim (Bool-cases (len == escape_length)) [
  | inl long ↦
      let (s, t, size) = take_extended_takes scope type bytes (rw long at e) in
      (s, t, inr (ground arith, omega arith))
  | inr short ↦
      let (s, t, l, size) = take_value_takes scope type len bytes (rw short at e) in
      (s, t, inl (ground arith, l, omega arith))
]

take_value-FailsWith :
    (scope : Scope) (type len : ℕ) (bytes : List ℕ)
    → FailsWith bad_format (take_value scope type len bytes)
unfolding take_value
take_value-FailsWith scope type len bytes = elim (Bool-cases (leb len (length bytes))) [
  | inl e ↦ rw e tt
  | inr e ↦ rw e refl
]

take_extended-FailsWith :
    (scope : Scope) (type : ℕ) (bytes : List ℕ)
    → FailsWith bad_format (take_extended scope type bytes)
unfolding take_extended
take_extended-FailsWith scope type [] = refl
take_extended-FailsWith scope type (hi ∷ []) = refl
take_extended-FailsWith scope type (hi ∷ lo ∷ bytes) = take_value-FailsWith scope type _ bytes

deserialize-FailsWith :
    (scope : Scope) (bytes : List ℕ) → FailsWith bad_format (deserialize scope bytes)
unfolding deserialize
deserialize-FailsWith scope [] = refl
deserialize-FailsWith scope (type ∷ []) = refl
deserialize-FailsWith scope (type ∷ len ∷ bytes) = elim (Bool-cases (len == escape_length)) [
  | inl e ↦ rw e (take_extended-FailsWith scope type bytes)
  | inr e ↦ rw e (take_value-FailsWith scope type len bytes)
]

deserialize_shorter :
    (scope : Scope) (bytes : List ℕ) {tlv : Tlv} {rest : List ℕ}
    → deserialize scope bytes ≡ ok (tlv, rest)
    → (tlv.scope ≡ scope) × (length rest + 2 ≤ length bytes)
unfolding deserialize
deserialize_shorter scope [] e = cc
deserialize_shorter scope (type ∷ []) e = cc
deserialize_shorter scope (type ∷ len ∷ bytes) e =
    ground (arith, deserialize_cut scope type len bytes e)

plain_wire :
    (tlv : Tlv)
    → tlv.type ≡ Types.domain_prefix
    → wire tlv ≡ tlv.type ∷ (length tlv.value % 256) ∷ tlv.value
unfolding wire is_extended_tlv
plain_wire tlv type = ground arith

wire_lost :
    (tlv : Tlv) (rest : List ℕ)
    → tlv.type ≡ Types.domain_prefix
    → 255 ≤ length tlv.value
    → deserialize tlv.scope (wire tlv ++ rest) ≢ ok (tlv, rest)
wire_lost tlv rest type long e =
    let taken =
      deserialize_cut tlv.scope tlv.type (length tlv.value % 256) (tlv.value ++ rest)
        (rw (plain_wire tlv type) at e) in
    omega (arith, taken.2, length-append tlv.value rest)

-- A Domain Prefix TLV of 255 bytes or more may be valid, but what it is serialized to does not read
-- back: whatever follows it, the parser does not return the TLV and what follows.
pub long_prefix_lost :
    (tlv : Tlv) (rest : List ℕ)
    → tlv.type ≡ Types.domain_prefix
    → is_valid tlv ≡ true
    → 255 ≤ length tlv.value
    → (bytes : List ℕ) × (serialize tlv [] ≡ ok bytes)
      × (deserialize tlv.scope (bytes ++ rest) ≢ ok (tlv, rest))
long_prefix_lost tlv rest type valid long =
    (wire tlv, serialize-wire tlv [] valid, wire_lost tlv rest type long)

-- The invariant of `GetTlvSet`: every entry is valid, of the scope asked for, under its own type.
abbrev pub IsTlvSet : Scope → TlvSet → Type 0
IsTlvSet scope set =
    (type : ℕ) (tlv : Tlv)
    → set type ≡ some tlv
    → (is_valid tlv ≡ true) × (tlv.scope ≡ scope) × (tlv.type ≡ type)

pub no_tlvs-IsTlvSet : (scope : Scope) → IsTlvSet scope no_tlvs
unfolding no_tlvs
no_tlvs-IsTlvSet scope type tlv e = cc

keep_valid-IsTlvSet :
    (scope : Scope) (tlv : Tlv) (set : TlvSet)
    → tlv.scope ≡ scope
    → IsTlvSet scope set
    → IsTlvSet scope (keep_valid tlv set)
unfolding keep_valid insert_tlv
keep_valid-IsTlvSet scope tlv set s inv type found e = ground (arith, inv type found)

abbrev pub Ends : Scope → Result TlvSet → Type 0
Ends scope (ok set) = IsTlvSet scope set
Ends scope (err e) = e ≡ bad_format
Ends scope died = ⊥

get_tlv_set_loop-Ends :
    (fuel : ℕ) (scope : Scope) (set : TlvSet) (bytes : List ℕ)
    → length bytes ≤ fuel
    → IsTlvSet scope set
    → Ends scope (get_tlv_set_loop fuel scope set bytes)
unfolding get_tlv_set_loop
get_tlv_set_loop-Ends fuel scope set [] h inv = inv
get_tlv_set_loop-Ends zero scope set (b ∷ bytes) h inv = absurd (omega arith)
get_tlv_set_loop-Ends (suc fuel) scope set (b ∷ bytes) h inv =
    elim (FailsWith-cases bad_format _ (deserialize-FailsWith scope (b ∷ bytes))) [
      | inr e ↦ rw e refl
      | inl ((tlv, rest), e) ↦
          let (s, shorter) = deserialize_shorter scope (b ∷ bytes) e in
          rw e (
            get_tlv_set_loop-Ends fuel scope (keep_valid tlv set) rest (omega arith)
              (keep_valid-IsTlvSet scope tlv set s inv))
    ]

-- `GetTlvSet` ends on every buffer, with no abort: it returns a set that keeps the invariant, given
-- one that does, or `bad_format`.
pub get_tlv_set-Ends :
    (scope : Scope) (set : TlvSet) (buf : List ℕ)
    → IsTlvSet scope set
    → Ends scope (get_tlv_set scope set buf)
unfolding get_tlv_set
get_tlv_set-Ends scope set buf inv =
    get_tlv_set_loop-Ends (length buf) scope set buf (omega arith) inv

found_in-is_valid :
    (type : ℕ) (scope : Scope) (r : Result TlvSet) (tlv : Tlv)
    → Ends scope r
    → found_in type r ≡ some tlv
    → (is_valid tlv ≡ true) × (tlv.scope ≡ scope) × (tlv.type ≡ type)
unfolding found_in
found_in-is_valid type scope (ok set) tlv inv e = inv type tlv e
found_in-is_valid type scope (err x) tlv inv e = cc
found_in-is_valid type scope died tlv inv e = cc

-- `GetTlv` returns a valid TLV of the type and the scope asked for, or null.
pub get_tlv-is_valid :
    (type : ℕ) (scope : Scope) (buf : List ℕ) (tlv : Tlv)
    → get_tlv type scope buf ≡ some tlv
    → (is_valid tlv ≡ true) × (tlv.scope ≡ scope) × (tlv.type ≡ type)
unfolding get_tlv
get_tlv-is_valid type scope buf tlv e =
    found_in-is_valid type scope _ tlv (get_tlv_set-Ends scope no_tlvs buf (no_tlvs-IsTlvSet scope))
      e
