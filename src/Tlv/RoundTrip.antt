-- ===== src/Tlv/RoundTrip.antt =====
-- `Tlv::Serialize` and `Tlv::Deserialize` of src/library/tlv.cpp, one after the other.
use mathlib.Core.List.{append_assoc}
use ot_commissioner.Common.{
  ℕ, ◌+◌, ◌*◌, ◌/◌, ◌%◌, ◌^◌, ◌<◌, ◌≡◌, arith, true, false, List, ◌∷◌, ◌++◌, length, ◌==◌,
  if◌then◌else◌, inl, inr, Bool-cases, ap, take-append, le→leb, drop-append, length-append, ok,
}
use ot_commissioner.Bytes.{encode}
use ot_commissioner.Tlv.Types
use ot_commissioner.Tlv.Length.{escape_length}
use ot_commissioner.Tlv.Bounds.{is_valid-LengthFits, LengthFits}
use ot_commissioner.Tlv.{
  Tlv, Scope, is_extended_tlv, is_valid, get_length, put_length, serialize, take_value,
  take_extended, deserialize,
}

-- The bytes of a valid TLV, without the buffer that they are appended to.
unfoldable pub wire : Tlv → List ℕ
wire tlv =
    if is_extended_tlv tlv.type
    then tlv.type ∷ 255 ∷ (length tlv.value / 256) ∷ (length tlv.value % 256) ∷ tlv.value
    else tlv.type ∷ (length tlv.value % 256) ∷ tlv.value

put_length_lem :
    (type len : ℕ) (buf value : List ℕ)
    → type < 256
    → len < 2 ^ 16
    → put_length type len (encode 1 buf type) ++ value
      ≡ buf
        ++ (if is_extended_tlv type
            then type ∷ 255 ∷ (len / 256) ∷ (len % 256) ∷ value
            else type ∷ (len % 256) ∷ value)
unfolding put_length
put_length_lem type len buf value ht hl =
    let t : type % 256 ≡ type = omega arith in
    let hi : len / 256 % 256 ≡ len / 256 = omega arith in
    let lo : len % 256 % 256 ≡ len % 256 = omega arith in
    elim (Bool-cases (is_extended_tlv type)) [
      | inl extended ↦ rw extended (simp (append_assoc, t, hi))
      | inr short ↦ rw short (simp (append_assoc, t, lo))
    ]

pub serialize-wire :
    (tlv : Tlv) (buf : List ℕ) → is_valid tlv ≡ true → serialize tlv buf ≡ ok (buf ++ wire tlv)
unfolding serialize wire get_length
serialize-wire tlv buf h =
    let fits = is_valid-LengthFits tlv h in
    let size : length tlv.value % 2 ^ 16 ≡ length tlv.value = omega arith in
    rw h (ap ok (rw size (put_length_lem tlv.type (length tlv.value) buf tlv.value fits.0 fits.1)))

take_value_lem :
    (scope : Scope) (type : ℕ) (value rest : List ℕ)
    → take_value scope type (length value) (value ++ rest)
      ≡ ok (record { scope = scope; type = type; value = value }, rest)
unfolding take_value
take_value_lem scope type value rest = rw (
  le→leb (length value) (length (value ++ rest)) (omega (arith, length-append value rest)),
  take-append value rest,
  drop-append value rest,
)

-- The length field of a valid TLV decodes to its length, unless it is a long Domain Prefix TLV.
pub deserialize-wire :
    (tlv : Tlv) (rest : List ℕ)
    → LengthFits tlv
    → (tlv.type ≡ Types.domain_prefix → length tlv.value < 255)
    → deserialize tlv.scope (wire tlv ++ rest) ≡ ok (tlv, rest)
unfolding deserialize wire take_extended
deserialize-wire tlv rest fits prefix = elim (Bool-cases (is_extended_tlv tlv.type)) [
  | inl extended ↦
      let size : length tlv.value / 256 * 2 ^ 8 + length tlv.value % 256 ≡ length tlv.value =
        omega arith in
      rw extended (rw size (take_value_lem tlv.scope tlv.type tlv.value rest))
  | inr short ↦
      let small : length tlv.value < 255 = ground arith in
      let size : length tlv.value % 256 ≡ length tlv.value = omega arith in
      let plain : (length tlv.value == escape_length) ≡ false = ground arith in
      rw short (rw size (rw plain (take_value_lem tlv.scope tlv.type tlv.value rest)))
]

-- A valid TLV is serialized without an abort, behind whatever the buffer holds, and the parser reads
-- it back from there and leaves what follows it, unless it is a Domain Prefix TLV of 255 bytes or more.
pub deserialize-serialize :
    (tlv : Tlv) (buf rest : List ℕ)
    → is_valid tlv ≡ true
    → (tlv.type ≡ Types.domain_prefix → length tlv.value < 255)
    → (bytes : List ℕ) × (serialize tlv buf ≡ ok (buf ++ bytes))
      × (deserialize tlv.scope (bytes ++ rest) ≡ ok (tlv, rest))
deserialize-serialize tlv buf rest valid prefix = (
  wire tlv,
  serialize-wire tlv buf valid,
  deserialize-wire tlv rest (is_valid-LengthFits tlv valid) prefix,
)
