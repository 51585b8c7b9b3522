-- ===== src/Coap/Message/Total.antt =====
-- `Message::Deserialize` of src/library/coap.cpp ends on any buffer, and reads only inside of it.
use ot_commissioner.Common.{
  ℕ, zero, suc, ◌+◌, ◌*◌, ◌/◌, ◌%◌, ◌^◌, ◌≤◌, ◌<◌, ◌≡◌, arith, true, false, List, [], ◌∷◌, length,
  drop, leb, ltb, ◌==◌, if◌then◌else◌, inl, inr, Bool-cases, ok, err, died, bad_format, Result,
  length-drop, Returns, >>=-Returns, verify-Returns, guard-Returns, invalid_args, if-Returns,
  returned, failed, leb→le, ◌&&◌, ==_iff,
}
use ot_commissioner.Coap.Header.{read_header, header_is_valid, deserialize_header}
use ot_commissioner.Coap.OptionType
use ot_commissioner.Coap.Options.{
  extension_size, take_extension, no_delta, take_option_value, read_option, deserialize_option,
  is_valid_option, is_critical_option,
}
use ot_commissioner.Bytes.{is_xdigit}
use ot_commissioner.Coap.UriPath.{percent_decode, prepend, normalize_uri_path}
use ot_commissioner.Coap.Message.{
  OptionMap, accept_option, try_append, tolerate, append_option, append_uri_path, emplace,
  options_loop, read_payload, deserialize, payload_marker,
}

-- With the bytes counted there, an extension is read and leaves the others.
take_extension_lem :
    (x : ℕ) (bytes : List ℕ)
    → extension_size x ≤ length bytes
    → (v : ℕ) × (rest : List ℕ) × (take_extension x bytes ≡ ok (v, rest))
      × (length rest + extension_size x ≡ length bytes)
unfolding extension_size
take_extension_lem x bytes h = elim (Bool-cases (ltb x 13)) [
  | inl small ↦ (x, bytes, unfold take_extension in rw small, ground arith)
  | inr large ↦ elim (Bool-cases (x == 13)) [
    | inl one ↦ from_one x bytes large one (ground arith)
    | inr two ↦ from_two x bytes large two (ground arith)
  ]
]
  where
    from_one :
        (x : ℕ) (bytes : List ℕ)
        → ltb x 13 ≡ false
        → (x == 13) ≡ true
        → 1 ≤ length bytes
        → (v : ℕ) × (rest : List ℕ) × (take_extension x bytes ≡ ok (v, rest))
          × (length rest + extension_size x ≡ length bytes)
    from_one x [] large one h = absurd (omega arith)
    from_one x (a ∷ bytes) large one h =
        (13 + a, bytes, unfold take_extension in rw (large, one), ground arith)

    from_two :
        (x : ℕ) (bytes : List ℕ)
        → ltb x 13 ≡ false
        → (x == 13) ≡ false
        → 2 ≤ length bytes
        → (v : ℕ) × (rest : List ℕ) × (take_extension x bytes ≡ ok (v, rest))
          × (length rest + extension_size x ≡ length bytes)
    from_two x [] large two h = absurd (omega arith)
    from_two x (a ∷ []) large two h = absurd (omega arith)
    from_two x (a ∷ b ∷ bytes) large two h = (
      (269 + (a * 2 ^ 8 + b)) % 2 ^ 16,
      bytes,
      unfold take_extension in rw (large, two),
      ground arith,
    )

-- The parser of an option returns, and a success takes a byte at least.
abbrev Shortens : ℕ → Result (ℕ × List ℕ × List ℕ) → Type 0
Shortens size (ok (number, value, rest)) = length rest < size
Shortens size (err e) = Unit {0}
Shortens size died = ⊥

take_option_value-Shortens :
    (number len size : ℕ) (rest : List ℕ)
    → length rest < size
    → Shortens size (take_option_value number len rest)
unfolding take_option_value
take_option_value-Shortens number len size rest h = elim (Bool-cases (leb len (length rest))) [
  | inl e ↦ rw e (omega (arith, length-drop len rest))
  | inr e ↦ rw e tt
]

read_option-Shortens :
    (delta len last : ℕ) (bytes : List ℕ)
    → extension_size delta + extension_size len ≤ length bytes
    → Shortens (suc (length bytes)) (read_option delta len last bytes)
unfolding read_option
read_option-Shortens delta len last bytes h =
    let (v, rest, e, size) = take_extension_lem delta bytes (omega arith) in
    let (w, rest', e', size') = take_extension_lem len rest (omega arith) in
    rw e (elim (Bool-cases (len == 15)) [
      | inl bad ↦ rw bad tt
      | inr good ↦
          rw
            (
              good,
              e',
              (==_iff (extension_size delta + extension_size len + length rest') (length bytes)).1
                  (omega arith),
            )
            (take_option_value-Shortens _ w _ rest' (omega arith))
    ])

no_delta-Shortens : (len size : ℕ) → Shortens size (no_delta len)
unfolding no_delta
no_delta-Shortens len size = elim (Bool-cases (len == 15)) [ inl e ↦ rw e tt | inr e ↦ rw e tt ]

deserialize_option-Shortens :
    (last : ℕ) (bytes : List ℕ) → Shortens (length bytes) (deserialize_option last bytes)
unfolding deserialize_option
deserialize_option-Shortens last [] = tt
deserialize_option-Shortens last (b ∷ bytes) =
    elim (Bool-cases (leb (extension_size (b / 2 ^ 4) + extension_size (b % 16)) (length bytes))) [
      | inr short ↦ rw short tt
      | inl fits ↦ elim (Bool-cases (b / 2 ^ 4 == 15)) [
        | inl end ↦ rw (fits, end) (no_delta-Shortens (b % 16) _)
        | inr more ↦
            rw (fits, more) (read_option-Shortens (b / 2 ^ 4) (b % 16) last bytes (leb→le _ _ fits))
      ]
    ]

prepend-Returns : (c : ℕ) {r : Result (List ℕ)} → Returns r → Returns (prepend c r)
unfolding prepend
prepend-Returns c (returned rest) = returned (c ∷ rest)
prepend-Returns c (failed e) = failed e

percent_decode-Returns : (path : List ℕ) → Returns (percent_decode path)
unfolding percent_decode
percent_decode-Returns [] = returned []
percent_decode-Returns (c ∷ []) = if-Returns (c == b'%') (failed _) (returned _)
percent_decode-Returns (c ∷ x ∷ []) =
    if-Returns (c == b'%') (failed _) (prepend-Returns c (percent_decode-Returns (x ∷ [])))
percent_decode-Returns (c ∷ x ∷ y ∷ rest) =
    if-Returns (c == b'%')
      (if-Returns (is_xdigit x && is_xdigit y) (prepend-Returns _ (percent_decode-Returns rest))
        (failed _))
      (prepend-Returns c (percent_decode-Returns (x ∷ y ∷ rest)))

-- A path is normalized or refused; the loop over its percent signs ends.
pub normalize_uri_path-Returns : (path : List ℕ) → Returns (normalize_uri_path path)
unfolding normalize_uri_path
normalize_uri_path-Returns path = >>=-Returns (percent_decode-Returns _) (λ rest e. returned _)

append_uri_path-Returns :
    (value : List ℕ) (options : OptionMap) → Returns (append_uri_path value options)
unfolding append_uri_path
append_uri_path-Returns value options =
    >>=-Returns (normalize_uri_path-Returns value) (λ p q. returned _)

append_option-Returns :
    (number : ℕ) (value : List ℕ) (options : OptionMap)
    → Returns (append_option number value options)
unfolding append_option
append_option-Returns number value options =
    guard-Returns (is_valid_option number (length value)) invalid_args
      (if number == OptionType.uri_path
        then append_uri_path value options
        else ok (emplace number value options))
      (if-Returns (number == OptionType.uri_path) (append_uri_path-Returns value options)
        (returned _))

tolerate-Returns :
    (number : ℕ) (options : OptionMap) {r : Result OptionMap}
    → Returns r
    → Returns (tolerate number options r)
unfolding tolerate
tolerate-Returns number options (returned o) = returned o
tolerate-Returns number options (failed e) =
    if-Returns (is_critical_option number) (failed e) (returned options)

accept_option-Returns :
    (number : ℕ) (value : List ℕ) (options : OptionMap)
    → Returns (accept_option number value options)
unfolding accept_option try_append
accept_option-Returns number value options = tolerate-Returns number options (
    if-Returns (is_valid_option number (length value)) (append_option-Returns number value options)
      (failed _))

Shortens-Returns : (size : ℕ) (r : Result (ℕ × List ℕ × List ℕ)) → Shortens size r → Returns r
Shortens-Returns size (ok r) s = returned r
Shortens-Returns size (err e) s = failed e
Shortens-Returns size died s = absurd s

Shortens-ok :
    (size : ℕ) (r : Result (ℕ × List ℕ × List ℕ)) (o : ℕ × List ℕ × List ℕ)
    → Shortens size r
    → r ≡ ok o
    → length o.2 < size
Shortens-ok size r o s e = rw e at s

options_loop-Returns :
    (fuel last : ℕ) (options : OptionMap) (bytes : List ℕ)
    → length bytes ≤ fuel
    → Returns (options_loop fuel last options bytes)
unfolding options_loop
options_loop-Returns fuel last options [] h = returned _
options_loop-Returns zero last options (b ∷ bytes) h = absurd (omega arith)
options_loop-Returns (suc fuel) last options (b ∷ bytes) h =
    let parsed = deserialize_option last (b ∷ bytes) in
    let short = deserialize_option-Shortens last (b ∷ bytes) in
    if-Returns (b == payload_marker) (returned _) (
      >>=-Returns (Shortens-Returns _ parsed short) λ r e.
        >>=-Returns (accept_option-Returns r.0 r.1 options) λ options' q.
          options_loop-Returns fuel r.0 options' r.2
            (omega (arith, Shortens-ok _ parsed r short e)))

deserialize_header-Returns : (buf : List ℕ) → Returns (deserialize_header buf)
unfolding deserialize_header
deserialize_header-Returns [] = failed _
deserialize_header-Returns (a ∷ []) = failed _
deserialize_header-Returns (a ∷ b ∷ []) = failed _
deserialize_header-Returns (a ∷ b ∷ c ∷ []) = failed _
deserialize_header-Returns (a ∷ b ∷ c ∷ d ∷ rest) =
    guard-Returns (leb (a % 16) (length rest)) bad_format
      (ok (read_header a b c d rest, drop (a % 16) rest)) (returned _)

read_payload-Returns : (bytes : List ℕ) → Returns (read_payload bytes)
unfolding read_payload
read_payload-Returns [] = returned _
read_payload-Returns (b ∷ []) = if-Returns (b == payload_marker) (failed _) (returned _)
read_payload-Returns (b ∷ c ∷ bytes) = if-Returns (b == payload_marker) (returned _) (returned _)

-- Whatever the buffer holds, parsing it as a message ends with a message or an error: it reads
-- nothing behind the end of the buffer, aborts nowhere, and its loop ends.
pub deserialize-Returns : (buf : List ℕ) → Returns (deserialize buf)
unfolding deserialize
deserialize-Returns buf = >>=-Returns (deserialize_header-Returns buf) λ h e.
    >>=-Returns (verify-Returns (header_is_valid h.0) bad_format) λ u v.
      >>=-Returns (options_loop-Returns (length h.1) 0 [] h.1 (omega arith))
        λ o p. >>=-Returns (read_payload-Returns o.1) (λ y q. returned _)
