-- ===== src/Coap/Options/Codec.antt =====
-- Writing one CoAP option and reading it back; where writing aborts.
use mathlib.Core.List.{append_assoc}
use ot_commissioner.Common.{
  ℕ, ◌+◌, ◌-◌, ◌*◌, ◌/◌, ◌%◌, ◌^◌, ◌<◌, ◌≤◌, ◌≡◌, ap, arith, true, false, ◌&&◌, List, ◌∷◌, ◌++◌,
  length, leb, ltb, ◌==◌, ok, died, take-append, drop-append, length-append, le→leb, ◌⊎◌, inl, inr,
  ◌↔◌, Bool-cases, ==_iff,
}
use ot_commissioner.Coap.Options.{
  is_valid_option, extension_size, nibble, extension, option_bytes, serialize_option,
  take_extension, take_option_value, read_option, deserialize_option,
}

-- The numbers for which the writer counts two extension bytes and writes one.
abbrev pub IsMiscounted : ℕ → Type 0
IsMiscounted x = (14 ≤ x) × (x < 269)

IsMiscounted-cases : (x : ℕ) → IsMiscounted x ⊎ (¬ IsMiscounted x)
IsMiscounted-cases x = elim (Bool-cases (leb 14 x && ltb x 269)) [
  | inl e ↦ inl (ground arith)
  | inr e ↦ inr (λ m. ground arith)
]

counted : (x : ℕ) → ¬ IsMiscounted x → extension_size x ≡ length (extension x)
unfolding extension_size extension
counted x h = ground arith

miscounted : (x : ℕ) → IsMiscounted x → extension_size x ≡ length (extension x) + 1
unfolding extension_size extension
miscounted x h = ground arith

counted_le : (x : ℕ) → length (extension x) ≤ extension_size x
unfolding extension_size extension
counted_le x = ground arith

pub nibble-lt : (x : ℕ) → nibble x < 15
unfolding nibble
nibble-lt x = ground arith

extension_size-nibble : (x : ℕ) → extension_size (nibble x) ≡ length (extension x)
unfolding extension_size extension nibble
extension_size-nibble x = ground arith

take_extension-extension :
    (x : ℕ) (rest : List ℕ)
    → x < 2 ^ 16
    → take_extension (nibble x) (extension x ++ rest) ≡ ok (x, rest)
unfolding take_extension nibble extension
take_extension-extension x rest h = elim (Bool-cases (ltb x 13)) [
  | inl small ↦ rw small (rw small)
  | inr large ↦ elim (Bool-cases (ltb x 269)) [
    | inl one ↦ rw (large, one) (ap (λ (n : ℕ). ok (n, rest)) (ground arith))
    | inr two ↦ rw (large, two) (ap (λ (n : ℕ). ok (n, rest)) (ground arith))
  ]
]

-- The bytes of an option, without the check on their number.
unfoldable pub option_wire : ℕ → List ℕ → List ℕ
option_wire delta value =
    (nibble delta * 2 ^ 4 + nibble (length value))
    ∷ (extension delta ++ (extension (length value) ++ value))

option_bytes-wire :
    (delta : ℕ) (value : List ℕ)
    → length value < 2 ^ 16
    → ¬ IsMiscounted delta
    → ¬ IsMiscounted (length value)
    → option_bytes delta value ≡ ok (option_wire delta value)
unfolding option_bytes option_wire
option_bytes-wire delta value h d l =
    let size : length value % 2 ^ 16 ≡ length value = omega arith in
    rw size (ground (arith, counted delta d, counted (length value) l))

option_bytes-died :
    (delta : ℕ) (value : List ℕ)
    → length value < 2 ^ 16
    → IsMiscounted delta ⊎ IsMiscounted (length value)
    → option_bytes delta value ≡ died
unfolding option_bytes
option_bytes-died delta value h bad =
    let size : length value % 2 ^ 16 ≡ length value = omega arith in
    rw size (
      ground (
        arith,
        miscounted delta,
        miscounted (length value),
        counted_le delta,
        counted_le (length value),
      ))

take_option_value_lem :
    (number : ℕ) (value rest : List ℕ)
    → take_option_value number (length value) (value ++ rest) ≡ ok (number, value, rest)
unfolding take_option_value
take_option_value_lem number value rest = rw (
  le→leb (length value) (length (value ++ rest)) (omega (arith, length-append value rest)),
  take-append value rest,
  drop-append value rest,
)

counted_extensions :
    (delta : ℕ) (value rest : List ℕ)
    → length value < 2 ^ 16
    → (extension_size (nibble delta)
          + extension_size (nibble (length value))
          + length (value ++ rest)
        == length (extension delta ++ (extension (length value) ++ (value ++ rest))))
      ≡ true
counted_extensions delta value rest hl = (==_iff _ _).1 (
    omega (
      arith,
      extension_size-nibble delta,
      extension_size-nibble (length value),
      length-append (extension delta) (extension (length value) ++ (value ++ rest)),
      length-append (extension (length value)) (value ++ rest),
    ))

read_option-wire :
    (delta last : ℕ) (value rest : List ℕ)
    → last + delta < 2 ^ 16
    → length value < 2 ^ 16
    → read_option
        (nibble delta)
        (nibble (length value))
        last
        (extension delta ++ (extension (length value) ++ (value ++ rest)))
      ≡ ok (last + delta, value, rest)
unfolding read_option
read_option-wire delta last value rest hd hl =
    let small : (nibble (length value) == 15) ≡ false = ground (arith, nibble-lt (length value)) in
    let number : (last + delta) % 2 ^ 16 ≡ last + delta = omega arith in
    rw (take_extension-extension delta (extension (length value) ++ (value ++ rest)) (omega arith))
      (rw small (
        rw (take_extension-extension (length value) (value ++ rest) hl) (
          rw (number, counted_extensions delta value rest hl)
            (take_option_value_lem (last + delta) value rest))))

-- Whatever its delta and length, an option's bytes are read back.
pub deserialize_option-wire :
    (delta last : ℕ) (value rest : List ℕ)
    → last + delta < 2 ^ 16
    → length value < 2 ^ 16
    → deserialize_option last (option_wire delta value ++ rest) ≡ ok (last + delta, value, rest)
unfolding deserialize_option option_wire
deserialize_option-wire delta last value rest hd hl =
    let d = nibble-lt delta in
    let l = nibble-lt (length value) in
    let hi : (nibble delta * 2 ^ 4 + nibble (length value)) / 2 ^ 4 ≡ nibble delta = omega arith in
    let lo : (nibble delta * 2 ^ 4 + nibble (length value)) % 16 ≡ nibble (length value) =
      omega arith in
    let body = extension delta ++ (extension (length value) ++ (value ++ rest)) in
    let whole : (extension delta ++ (extension (length value) ++ value)) ++ rest ≡ body =
      simp append_assoc in
    let fits : leb (extension_size (nibble delta) + extension_size (nibble (length value)))
          (length body)
        ≡ true =
      le→leb _ _ (
        omega (
          arith,
          extension_size-nibble delta,
          extension_size-nibble (length value),
          length-append (extension delta) (extension (length value) ++ (value ++ rest)),
          length-append (extension (length value)) (value ++ rest),
        )) in
    let more : (nibble delta == 15) ≡ false = ground arith in
    rw (hi, lo, whole) (rw fits (rw more (read_option-wire delta last value rest hd hl)))

is_valid_option_short : (number len : ℕ) → is_valid_option number len ≡ true → len < 2 ^ 16
unfolding is_valid_option
is_valid_option_short number len h = ground arith

-- The conditions under which an option is written.
abbrev pub IsWritable : ℕ → ℕ → List ℕ → Type 0
IsWritable last number value =
    (number < 2 ^ 16)
    × (last ≤ number)
    × (is_valid_option number (length value) ≡ true)
    × (¬ IsMiscounted (number - last))
    × (¬ IsMiscounted (length value))

pub serialize_option-wire :
    (number last : ℕ) (value buf : List ℕ)
    → IsWritable last number value
    → serialize_option number value last buf ≡ ok (buf ++ option_wire (number - last) value)
unfolding serialize_option
serialize_option-wire number last value buf (small, order, valid, d, l) = rw (
  le→leb last number order,
  valid,
  option_bytes-wire (number - last) value (is_valid_option_short number (length value) valid) d l,
)

pub deserialize_option-writable :
    (number last : ℕ) (value rest : List ℕ)
    → IsWritable last number value
    → deserialize_option last (option_wire (number - last) value ++ rest) ≡ ok (number, value, rest)
deserialize_option-writable number last value rest (small, order, valid, d, l) =
    let short = is_valid_option_short number (length value) valid in
    let sum : last + (number - last) ≡ number = omega arith in
    rw sum at (deserialize_option-wire (number - last) last value rest (omega arith) short)

-- A valid option in order, of which neither the delta of the number nor the length of the value lies
-- from 14 to 268, is written behind what the buffer holds, and read back from there with what follows.
pub deserialize_option-serialize_option :
    (number last : ℕ) (value buf rest : List ℕ)
    → IsWritable last number value
    → (bytes : List ℕ) × (serialize_option number value last buf ≡ ok (buf ++ bytes))
      × (deserialize_option last (bytes ++ rest) ≡ ok (number, value, rest))
deserialize_option-serialize_option number last value buf rest h = (
  option_wire (number - last) value,
  serialize_option-wire number last value buf h,
  deserialize_option-writable number last value rest h,
)

-- Writing a valid option in order aborts the program exactly when the delta of its number or the
-- length of its value lies from 14 to 268.
pub serialize_option-died :
    (number last : ℕ) (value buf : List ℕ)
    → last ≤ number
    → is_valid_option number (length value) ≡ true
    → (serialize_option number value last buf ≡ died)
      ↔ (IsMiscounted (number - last) ⊎ IsMiscounted (length value))
unfolding serialize_option
serialize_option-died number last value buf order valid = (to, from)
  where
    short : length value < 2 ^ 16
    short = is_valid_option_short number (length value) valid

    from :
        IsMiscounted (number - last) ⊎ IsMiscounted (length value)
        → serialize_option number value last buf ≡ died
    from bad =
        rw (le→leb last number order, valid, option_bytes-died (number - last) value short bad)

    to :
        serialize_option number value last buf ≡ died
        → IsMiscounted (number - last) ⊎ IsMiscounted (length value)
    to e = elim (IsMiscounted-cases (number - last)) [
      | inl d ↦ inl d
      | inr d ↦ elim (IsMiscounted-cases (length value)) [
        | inl l ↦ inr l
        | inr l ↦ absurd (
            cc (
              rw
                (le→leb last number order, valid, option_bytes-wire (number - last) value short d l)
                at e))
      ]
    ]
