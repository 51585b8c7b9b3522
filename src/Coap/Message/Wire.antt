-- ===== src/Coap/Message/Wire.antt =====
-- The options of a message of src/library/coap.cpp, as the bytes that `Serialize` writes for them and
-- as the loop of `Deserialize` meets them.
use mathlib.Core.List.{append_assoc, append-nil}
use ot_commissioner.Common.{
  ℕ, zero, suc, ◌-◌, ◌≤◌, ◌≡◌, refl, sym, ap, ◌∙◌, arith, true, false, List, [], ◌∷◌, ◌++◌, length,
  ◌==◌, if◌then◌else◌, inl, inr, Bool-cases, ok, ◌>>=◌, Result, length-append, >>=-eq-ok,
}
use ot_commissioner.Coap.OptionType
use ot_commissioner.Coap.Options.{serialize_option, deserialize_option, extension}
use ot_commissioner.Coap.Options.Codec.{
  option_wire, IsWritable, serialize_option-wire, deserialize_option-writable, nibble-lt,
}
use ot_commissioner.Coap.UriPath.{split_uri_path}
use ot_commissioner.Coap.Message.{
  OptionMap, serialize_segments, serialize_one, serialize_options, accept_option, options_loop,
  payload_marker,
}

-- The segments of a path, each as an option of its own.
unfoldable pub tagged : List (List ℕ) → OptionMap
tagged [] = []
tagged (s ∷ segments) = (OptionType.uri_path, s) ∷ tagged segments

unfoldable pub pieces : ℕ → List ℕ → OptionMap
pieces number value =
    if number == OptionType.uri_path then tagged (split_uri_path value) else (number, value) ∷ []

unfoldable pub option_list : OptionMap → OptionMap
option_list [] = []
option_list ((number, value) ∷ options) = pieces number value ++ option_list options

unfoldable pub put_all : ℕ → OptionMap → List ℕ
put_all last [] = []
put_all last ((number, value) ∷ options) =
    option_wire (number - last) value ++ put_all number options

-- Each option can be written behind the one before it.
abbrev pub AreWritable : ℕ → OptionMap → Type 0
AreWritable last [] = Unit {0}
AreWritable last ((number, value) ∷ options) =
    IsWritable last number value × AreWritable number options

-- What is left to write after some options, and the number of the last of them.
abbrev Leaves : Result (ℕ × List ℕ) → ℕ → List ℕ → OptionMap → OptionMap → Type 0
Leaves r last buf before options =
    (last' : ℕ) × (buf' : List ℕ) × (r ≡ ok (last', buf'))
    × AreWritable last' options
    × (buf' ++ put_all last' options ≡ buf ++ put_all last (before ++ options))

serialize_segments-Leaves :
    (segments : List (List ℕ)) (last : ℕ) (buf : List ℕ) (options : OptionMap)
    → AreWritable last (tagged segments ++ options)
    → Leaves (serialize_segments segments last buf) last buf (tagged segments) options
unfolding serialize_segments tagged put_all
serialize_segments-Leaves [] last buf options h = (last, buf, refl, h, refl)
serialize_segments-Leaves (s ∷ segments) last buf options (one, h) =
    let next = buf ++ option_wire (OptionType.uri_path - last) s in
    let (last', buf', e, h', b) =
      serialize_segments-Leaves segments OptionType.uri_path next options h in
    (
      last',
      buf',
      rw (serialize_option-wire OptionType.uri_path last s buf one) e,
      h',
      b ∙ append_assoc buf (option_wire (OptionType.uri_path - last) s) _,
    )

serialize_plain-Leaves :
    (number : ℕ) (value : List ℕ) (last : ℕ) (buf : List ℕ) (options : OptionMap)
    → AreWritable last ((number, value) ∷ options)
    → Leaves
        (do next ← serialize_option number value last buf; ok (number, next))
        last
        buf
        ((number, value) ∷ [])
        options
unfolding put_all
serialize_plain-Leaves number value last buf options (one, h) = (
  number,
  buf ++ option_wire (number - last) value,
  rw (serialize_option-wire number last value buf one),
  h,
  append_assoc buf _ _,
)

serialize_one-Leaves :
    (number : ℕ) (value : List ℕ) (last : ℕ) (buf : List ℕ) (options : OptionMap)
    → AreWritable last (pieces number value ++ options)
    → Leaves (serialize_one number value last buf) last buf (pieces number value) options
unfolding serialize_one pieces
serialize_one-Leaves number value last buf options h =
    elim (Bool-cases (number == OptionType.uri_path)) [
      | inl path ↦
          rw path (serialize_segments-Leaves (split_uri_path value) last buf options (rw path at h))
      | inr plain ↦ rw plain (serialize_plain-Leaves number value last buf options (rw plain at h))
    ]

pub serialize_options-put_all :
    (options : OptionMap) (last : ℕ) (buf : List ℕ)
    → AreWritable last (option_list options)
    → serialize_options options last buf ≡ ok (buf ++ put_all last (option_list options))
unfolding serialize_options option_list
serialize_options-put_all [] last buf h = unfold put_all in ap ok (sym (append-nil buf))
serialize_options-put_all ((number, value) ∷ options) last buf h =
    let (last', buf', e, h', b) =
      serialize_one-Leaves number value last buf (option_list options) h in
    rw e (serialize_options-put_all options last' buf' h' ∙ ap ok b)

unfoldable pub accept_all : OptionMap → OptionMap → Result OptionMap
accept_all [] options = ok options
accept_all ((number, value) ∷ more) options = do
  options' ← accept_option number value options
  accept_all more options'

-- Where the loop stops: at the end, or at the payload marker.
abbrev pub IsTail : List ℕ → Type 0
IsTail [] = Unit {0}
IsTail (b ∷ bytes) = (b == payload_marker) ≡ true

option_wire-first :
    (delta : ℕ) (value rest : List ℕ)
    → (b : ℕ) × (bytes : List ℕ) × (option_wire delta value ++ rest ≡ b ∷ bytes)
      × ((b == payload_marker) ≡ false)
unfolding option_wire
option_wire-first delta value rest =
    (_, _, refl, ground (arith, nibble-lt delta, nibble-lt (length value)))

stops :
    (fuel last : ℕ) (options : OptionMap) (tail : List ℕ)
    → IsTail tail
    → length tail ≤ fuel
    → options_loop fuel last options tail ≡ ok (options, tail)
unfolding options_loop
stops fuel last options [] t h = refl
stops zero last options (b ∷ bytes) t h = absurd (omega arith)
stops (suc fuel) last options (b ∷ bytes) t h = rw t

-- One round of the loop, on the bytes of an option.
round :
    (fuel last number : ℕ) (value : List ℕ) (options : OptionMap) (bytes rest : List ℕ) (b : ℕ)
    → (b == payload_marker) ≡ false
    → deserialize_option last (b ∷ bytes) ≡ ok (number, value, rest)
    → options_loop (suc fuel) last options (b ∷ bytes)
      ≡ (do options' ← accept_option number value options; options_loop fuel number options' rest)
unfolding options_loop
round fuel last number value options bytes rest b m e = rw (m, e)

-- The bytes of an option, taken in one round.
round_written :
    (fuel last number : ℕ) (value rest : List ℕ) (options options' : OptionMap)
    → IsWritable last number value
    → accept_option number value options ≡ ok options'
    → length (option_wire (number - last) value ++ rest) ≤ suc fuel
    → (options_loop (suc fuel) last options (option_wire (number - last) value ++ rest)
        ≡ options_loop fuel number options' rest)
      × (length rest ≤ fuel)
round_written fuel last number value rest options options' one e size =
    let (b, bytes, first, plain) = option_wire-first (number - last) value rest in
    (
      ap (options_loop (suc fuel) last options) first
          ∙ round fuel last number value options bytes rest b plain (
              ap (deserialize_option last) (sym first)
              ∙ deserialize_option-writable number last value rest one)
          ∙ rw e,
      unfold option_wire in
          omega (
            arith,
            length-append (extension (number - last) ++ (extension (length value) ++ value)) rest,
          ),
    )

-- The loop over what was written for some options takes each of them once, in order, and stops at
-- the payload.
pub options_loop-put_all :
    (more : OptionMap) (fuel last : ℕ) (options result : OptionMap) (tail : List ℕ)
    → AreWritable last more
    → IsTail tail
    → accept_all more options ≡ ok result
    → length (put_all last more ++ tail) ≤ fuel
    → options_loop fuel last options (put_all last more ++ tail) ≡ ok (result, tail)
unfolding accept_all put_all
options_loop-put_all [] fuel last options result tail h t e size =
    stops fuel last options tail t size ∙ ap (λ (r : Result OptionMap). r >>= λ o. ok (o, tail)) e
options_loop-put_all ((number, value) ∷ more) zero last options result tail (one, h) t e size =
    absurd (unfold option_wire in omega arith)
options_loop-put_all ((number, value) ∷ more) (suc fuel) last options result tail (one, h) t e
      size =
    let (options', e1, e2) = >>=-eq-ok (accept_option number value options) (accept_all more) e in
    let whole = append_assoc (option_wire (number - last) value) (put_all number more) tail in
    let (step, less) =
      round_written fuel last number value (put_all number more ++ tail) options options' one e1
        (rw whole at size) in
    ap (options_loop (suc fuel) last options) whole
    ∙ step
    ∙ options_loop-put_all more fuel number options' result tail h t e2 less
