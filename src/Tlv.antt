-- ===== src/Tlv.antt =====
-- src/library/tlv.hpp and src/library/tlv.cpp: Thread TLVs, their encoding and their validity.
-- A `size_t` offset into a buffer is the part of the buffer that it leaves to be read.
pub mod Types
pub mod Length
pub mod Bounds
pub mod RoundTrip
pub mod Parse
pub mod Message
pub mod Parameters
mod Tests
use ot_commissioner.Common.{
  ℕ, zero, suc, ◌+◌, ◌*◌, ◌/◌, ◌%◌, ◌^◌, Bool, true, false, ◌&&◌, ◌||◌, not, List, [], ◌∷◌, ◌++◌,
  Option, none, some, length, take, drop, leb, ltb, ◌==◌, if◌then◌else◌, Result, ok, err, died,
  bad_format, ◌>>=◌, ◌>>◌, verify, assert,
}
use ot_commissioner.Bytes.{encode, decode}
use Types
use Length.{LengthRule, allows, find_rule, thread_rules, mesh_cop_rules, escape_length}

pub data Scope : Type 0 where
  mesh_cop thread mesh_link : Scope

pub record Tlv : Type 0 where
  pub scope : Scope
  pub type : ℕ
  pub value : List ℕ

abbrev pub state_reject : ℕ
state_reject = 255

abbrev pub state_accept : ℕ
state_accept = 1

unfoldable pub is_extended_tlv : ℕ → Bool
is_extended_tlv type =
    type == Types.udp_encapsulation
    || type == Types.commissioner_token
    || type == Types.joiner_dtls_encapsulation

-- `GetLength`: the size cut to 16 bits.
unfoldable pub get_length : Tlv → ℕ
get_length tlv = length tlv.value % 2 ^ 16

allowed : Option LengthRule → ℕ → Bool
allowed none length = false
allowed (some rule) length = allows rule length

-- The rules of a scope; in the scope of mesh links nothing is valid.
unfoldable pub scope_rules : Scope → List (ℕ × LengthRule)
scope_rules mesh_cop = mesh_cop_rules
scope_rules thread = thread_rules
scope_rules mesh_link = []

unfoldable pub is_valid : Tlv → Bool
unfolding get_length scope_rules allowed
is_valid tlv =
    get_length tlv == length tlv.value
    && allowed (find_rule tlv.type (scope_rules tlv.scope)) (get_length tlv)

-- The length field: two bytes behind the escape for an extended type, else one byte.
unfoldable pub put_length : ℕ → ℕ → List ℕ → List ℕ
unfolding encode
put_length type len buf =
    if is_extended_tlv type
    then encode 2 (encode 1 buf escape_length) len
    else encode 1 buf (len % 2 ^ 8)

-- The assertion of validity aborts.
unfoldable pub serialize : Tlv → List ℕ → Result (List ℕ)
serialize tlv buf = do
  assert (is_valid tlv)
  ok (put_length tlv.type (get_length tlv) (encode 1 buf tlv.type) ++ tlv.value)

-- The last step of `Deserialize`: the value of `len` bytes.
unfoldable pub take_value : Scope → ℕ → ℕ → List ℕ → Result (Tlv × List ℕ)
take_value scope type len rest = do
  verify (leb len (length rest)) bad_format
  ok (record { scope = scope; type = type; value = take len rest }, drop len rest)

-- The two bytes of an extended length.
unfoldable pub take_extended : Scope → ℕ → List ℕ → Result (Tlv × List ℕ)
take_extended scope type (hi ∷ lo ∷ rest) = take_value scope type (hi * 2 ^ 8 + lo) rest
take_extended scope type _ = err bad_format

unfoldable pub deserialize : Scope → List ℕ → Result (Tlv × List ℕ)
deserialize scope (type ∷ len ∷ rest) =
    if len == escape_length then take_extended scope type rest else take_value scope type len rest
deserialize scope _ = err bad_format

-- `std::map<tlv::Type, tlv::TlvPtr>`: null where the type has no entry.
abbrev pub TlvSet : Type 0
TlvSet = ℕ → Option Tlv

unfoldable pub no_tlvs : TlvSet
no_tlvs type = none

unfoldable pub insert_tlv : Tlv → TlvSet → TlvSet
insert_tlv tlv set type = if type == tlv.type then some tlv else set type

-- One round of the loop of `GetTlvSet`: an invalid TLV is dropped.
unfoldable pub keep_valid : Tlv → TlvSet → TlvSet
keep_valid tlv set = if is_valid tlv then insert_tlv tlv set else set

-- The loop, on fuel; where that runs out, `died`.
unfoldable pub get_tlv_set_loop : ℕ → Scope → TlvSet → List ℕ → Result TlvSet
get_tlv_set_loop fuel scope set [] = ok set
get_tlv_set_loop zero scope set (b ∷ bytes) = died
get_tlv_set_loop (suc fuel) scope set (b ∷ bytes) = do
  (tlv, rest) ← deserialize scope (b ∷ bytes)
  get_tlv_set_loop fuel scope (keep_valid tlv set) rest

-- Each round takes two bytes at least, so a round for each byte is enough.
unfoldable pub get_tlv_set : Scope → TlvSet → List ℕ → Result TlvSet
get_tlv_set scope set buf = get_tlv_set_loop (length buf) scope set buf

-- `SuccessOrExit` in `GetTlv` leaves the result null.
unfoldable pub found_in : ℕ → Result TlvSet → Option Tlv
found_in type (ok set) = set type
found_in type (err e) = none
found_in type died = none

unfoldable pub get_tlv : ℕ → Scope → List ℕ → Option Tlv
unfolding found_in
get_tlv type scope buf = found_in type (get_tlv_set scope no_tlvs buf)

unfoldable pub get_total_length : Tlv → ℕ
unfolding get_length
get_total_length tlv =
    (1 + (if leb escape_length (get_length tlv) then 3 else 1) + get_length tlv) % 2 ^ 16

abbrev pub empty_tlv : ℕ → List ℕ → Tlv
empty_tlv type value = record { scope = mesh_cop; type = type; value = value }
