-- ===== src/Coap/Message.antt =====
-- The class Message of src/library/coap.hpp and src/library/coap.cpp: its options, and the two codecs
-- of a whole message.
pub mod Wire
pub mod Map
pub mod RoundTrip
pub mod Total
use ot_commissioner.Common.{
  ℕ, zero, suc, ◌+◌, ◌-◌, ◌*◌, ◌/◌, ◌%◌, ◌^◌, Bool, true, false, ◌&&◌, ◌||◌, not, List, [], ◌∷◌,
  ◌++◌, length, take, drop, leb, ltb, ◌==◌, if◌then◌else◌, Option, none, some, Result, ok, err,
  died, bad_format, not_found, invalid_args, ErrorCode, ◌>>=◌, ◌>>◌, verify, verify_or_die,
}
use ot_commissioner.Coap.Header.{
  Header, header_is_valid, serialize_header, deserialize_header, version_1,
}
use ot_commissioner.Coap.OptionType
use ot_commissioner.Coap.Options.{
  is_valid_option, is_critical_option, serialize_option, deserialize_option,
}
use ot_commissioner.Coap.UriPath.{split_uri_path, normalize_uri_path}

-- `std::map<OptionType, OptionValue>`, in the order of the numbers.
abbrev pub OptionMap : Type 0
OptionMap = List (ℕ × List ℕ)

unfoldable pub get_option : ℕ → OptionMap → Option (List ℕ)
get_option number [] = none
get_option number ((n, value) ∷ options) =
    if n == number then some value else get_option number options

-- `emplace`: an entry that is there is kept.
unfoldable pub emplace : ℕ → List ℕ → OptionMap → OptionMap
emplace number value [] = (number, value) ∷ []
emplace number value ((n, v) ∷ options) =
    if ltb number n
    then (number, value) ∷ (n, v) ∷ options
    else if number == n
    then (n, v) ∷ options
    else (n, v) ∷ emplace number value options

-- `mOptions[aNumber] = mOptions[aNumber].GetStringValue() + uriPath`
unfoldable pub extend_option : ℕ → List ℕ → OptionMap → OptionMap
extend_option number value [] = (number, value) ∷ []
extend_option number value ((n, v) ∷ options) =
    if ltb number n
    then (number, value) ∷ (n, v) ∷ options
    else if number == n
    then (n, v ++ value) ∷ options
    else (n, v) ∷ extend_option number value options

-- `AppendOption`
unfoldable pub append_uri_path : List ℕ → OptionMap → Result OptionMap
append_uri_path value options = do
  path ← normalize_uri_path value
  ok (extend_option OptionType.uri_path path options)

unfoldable pub append_option : ℕ → List ℕ → OptionMap → Result OptionMap
append_option number value options = do
  verify (is_valid_option number (length value)) invalid_args
  if number == OptionType.uri_path
      then append_uri_path value options
      else ok (emplace number value options)

pub record Message : Type 0 where
  pub header : Header
  pub options : OptionMap
  pub payload : List ℕ

abbrev pub payload_marker : ℕ
payload_marker = 0xff

-- The inner loop of `Serialize`, over the segments of the path.
unfoldable pub serialize_segments : List (List ℕ) → ℕ → List ℕ → Result (ℕ × List ℕ)
serialize_segments [] last buf = ok (last, buf)
serialize_segments (segment ∷ segments) last buf = do
  next ← serialize_option OptionType.uri_path segment last buf
  serialize_segments segments OptionType.uri_path next

-- The loop over the options.
unfoldable pub serialize_one : ℕ → List ℕ → ℕ → List ℕ → Result (ℕ × List ℕ)
serialize_one number value last buf =
    if number == OptionType.uri_path
    then serialize_segments (split_uri_path value) last buf
    else (do next ← serialize_option number value last buf; ok (number, next))

unfoldable pub serialize_options : OptionMap → ℕ → List ℕ → Result (List ℕ)
serialize_options [] last buf = ok buf
serialize_options ((number, value) ∷ options) last buf = do
  (last', buf') ← serialize_one number value last buf
  serialize_options options last' buf'

unfoldable pub put_payload : List ℕ → List ℕ → List ℕ
put_payload [] buf = buf
put_payload (b ∷ payload) buf = buf ++ (payload_marker ∷ b ∷ payload)

unfoldable pub serialize : Message → List ℕ → Result (List ℕ)
serialize m buf = do
  buf' ← serialize_header m.header buf
  buf'' ← serialize_options m.options 0 buf'
  ok (put_payload m.payload buf'')

-- What one option does to the map: a bad one ends the parse if its number is critical, and is
-- passed over if not.
unfoldable pub tolerate : ℕ → OptionMap → Result OptionMap → Result OptionMap
tolerate number options (ok next) = ok next
tolerate number options (err e) = if is_critical_option number then err e else ok options
tolerate number options died = died

-- `IsValidOption` is asked by the loop, and once more by `AppendOption`.
unfoldable pub try_append : ℕ → List ℕ → OptionMap → Result OptionMap
try_append number value options =
    if is_valid_option number (length value)
    then append_option number value options
    else err bad_format

unfoldable pub accept_option : ℕ → List ℕ → OptionMap → Result OptionMap
unfolding tolerate
accept_option number value options = tolerate number options (try_append number value options)

-- The loop of `Deserialize`, on fuel: the options, and the payload marker with what follows it.
-- Where the fuel runs out, `died`.
unfoldable pub options_loop : ℕ → ℕ → OptionMap → List ℕ → Result (OptionMap × List ℕ)
options_loop fuel last options [] = ok (options, [])
options_loop zero last options (b ∷ bytes) = died
options_loop (suc fuel) last options (b ∷ bytes) =
    let more = do
      (number, value, rest) ← deserialize_option last (b ∷ bytes)
      options' ← accept_option number value options
      options_loop fuel number options' rest
    in if b == payload_marker then ok (options, b ∷ bytes) else more

-- The payload: nothing where the buffer has ended, else what follows the marker.
unfoldable pub read_payload : List ℕ → Result (List ℕ)
read_payload [] = ok []
read_payload (b ∷ []) = if b == payload_marker then err bad_format else ok []
read_payload (b ∷ c ∷ payload) = if b == payload_marker then ok (c ∷ payload) else ok []

-- `Message::Deserialize`. Each option takes a byte at least, so a round for each byte is enough.
unfoldable pub deserialize : List ℕ → Result Message
deserialize buf = do
  (header, rest) ← deserialize_header buf
  verify (header_is_valid header) bad_format
  (options, rest') ← options_loop (length rest) 0 [] rest
  payload ← read_payload rest'
  ok (record { header = header; options = options; payload = payload })
