-- ===== src/Coap/Options.antt =====
-- One CoAP option in src/library/coap.cpp: which options are valid, and the two codecs. An offset
-- into the buffer is the part of the buffer that it leaves to be read.
pub mod Codec
use ot_commissioner.Common.{
  ℕ, zero, suc, ◌+◌, ◌-◌, ◌*◌, ◌/◌, ◌%◌, ◌^◌, Bool, true, false, ◌&&◌, ◌||◌, not, List, [], ◌∷◌,
  ◌++◌, length, take, drop, leb, ltb, ◌==◌, if◌then◌else◌, Result, ok, err, died, bad_format,
  not_found, invalid_args, ◌>>=◌, ◌>>◌, verify, verify_or_die,
}
use ot_commissioner.Coap.OptionType

-- `IsValidOption`; the second argument is the length of the value.
unfoldable pub is_valid_option : ℕ → ℕ → Bool
is_valid_option number len =
    if number == OptionType.if_match
    then leb len 8
    else if number == OptionType.uri_host
    then leb 1 len && leb len 255
    else if number == OptionType.etag
    then leb 1 len && leb len 8
    else if number == OptionType.if_non_match
    then len == 0
    else if number == OptionType.uri_port
    then leb len 2
    else if number == OptionType.location_path
    then leb len 255
    else if number == OptionType.uri_path
    then leb len 255
    else if number == OptionType.content_format
    then leb len 2
    else if number == OptionType.max_age
    then leb len 4
    else if number == OptionType.uri_query
    then leb len 255
    else if number == OptionType.accept
    then leb len 2
    else if number == OptionType.location_query
    then leb len 255
    else if number == OptionType.proxy_uri
    then leb 1 len && leb len 1034
    else if number == OptionType.proxy_scheme
    then leb 1 len && leb len 255
    else if number == OptionType.size1
    then leb len 4
    else false

unfoldable pub is_critical_option : ℕ → Bool
is_critical_option number =
    number == OptionType.if_match
    || number == OptionType.uri_host
    || number == OptionType.if_non_match
    || number == OptionType.uri_port
    || number == OptionType.uri_path
    || number == OptionType.uri_query
    || number == OptionType.accept
    || number == OptionType.proxy_uri
    || number == OptionType.proxy_scheme

-- kOption1ByteExtension and kOption2ByteExtension; kOption1ByteExtensionOffset and
-- kOption2ByteExtensionOffset.
abbrev pub one_byte : ℕ
one_byte = 13

abbrev pub two_byte : ℕ
two_byte = 14

abbrev pub one_byte_offset : ℕ
one_byte_offset = 13

abbrev pub two_byte_offset : ℕ
two_byte_offset = 269

-- `x < kOption1ByteExtension ? 0 : (x < kOption2ByteExtension ? 1 : 2)`, the summand of `length`.
unfoldable pub extension_size : ℕ → ℕ
extension_size x = if ltb x one_byte then 0 else if ltb x two_byte then 1 else 2

-- What `Serialize` puts for a delta or a length into its half of the first byte.
unfoldable pub nibble : ℕ → ℕ
nibble x = if ltb x one_byte_offset then x else if ltb x two_byte_offset then one_byte else two_byte

-- What it puts behind the first byte.
unfoldable pub extension : ℕ → List ℕ
extension x =
    if ltb x one_byte_offset
    then []
    else if ltb x two_byte_offset
    then ((x - one_byte_offset) % 2 ^ 8) ∷ []
    else ((x - two_byte_offset) / 2 ^ 8) ∷ ((x - two_byte_offset) % 2 ^ 8) ∷ []

-- The bytes for an option of which the number is `delta` above the last one. The check
-- `length + firstByte == extend` compares the size computed with the bytes written.
unfoldable pub option_bytes : ℕ → List ℕ → Result (List ℕ)
option_bytes delta value = do
  let len = length value % 2 ^ 16
  verify_or_die (
      extension_size delta + extension_size len
      == length (extension delta) + length (extension len))
  ok ((nibble delta * 2 ^ 4 + nibble len) ∷ extension delta ++ (extension len ++ value))

-- `Serialize` of an option.
unfoldable pub serialize_option : ℕ → List ℕ → ℕ → List ℕ → Result (List ℕ)
serialize_option number value last_number buf = do
  verify_or_die (leb last_number number)
  verify (is_valid_option number (length value)) invalid_args
  bytes ← option_bytes (number - last_number) value
  ok (buf ++ bytes)

-- Reads the extension of a nibble below 15, in 16 bits. A read past the end is `died`.
unfoldable pub take_one : List ℕ → Result (ℕ × List ℕ)
take_one (b ∷ rest) = ok (one_byte_offset + b, rest)
take_one [] = died

unfoldable pub take_two : List ℕ → Result (ℕ × List ℕ)
take_two (hi ∷ lo ∷ rest) = ok ((two_byte_offset + (hi * 2 ^ 8 + lo)) % 2 ^ 16, rest)
take_two _ = died

unfoldable pub take_extension : ℕ → List ℕ → Result (ℕ × List ℕ)
unfolding take_one take_two
take_extension x bytes =
    if ltb x one_byte
    then ok (x, bytes)
    else if x == one_byte
    then take_one bytes
    else take_two bytes

-- The branch for a delta of 15: the payload marker, or an error.
unfoldable pub no_delta : ℕ → Result (ℕ × List ℕ × List ℕ)
no_delta len = do verify (len == 15) bad_format; err not_found

-- `valueLength + extend <= aBuf.size()`, and the value.
unfoldable pub take_option_value : ℕ → ℕ → List ℕ → Result (ℕ × List ℕ × List ℕ)
take_option_value number len rest = do
  verify (leb len (length rest)) bad_format
  ok (number, take len rest, drop len rest)

-- Behind the first byte: the extensions of the delta and of the length, and the value. The check
-- `firstByte + length == extend` compares the size computed with the bytes read.
unfoldable pub read_option : ℕ → ℕ → ℕ → List ℕ → Result (ℕ × List ℕ × List ℕ)
read_option delta len last_number bytes = do
  (delta', rest) ← take_extension delta bytes
  verify (not (len == 15)) bad_format
  (len', rest') ← take_extension len rest
  verify_or_die (extension_size delta + extension_size len + length rest' == length bytes)
  take_option_value ((last_number + delta') % 2 ^ 16) len' rest'

-- `Deserialize` of an option: the number, the value, and what is left of the buffer.
unfoldable pub deserialize_option : ℕ → List ℕ → Result (ℕ × List ℕ × List ℕ)
deserialize_option last_number [] = err bad_format
deserialize_option last_number (b ∷ bytes) = do
  let delta = b / 2 ^ 4
  let len = b % 16
  verify (leb (extension_size delta + extension_size len) (length bytes)) bad_format
  if delta == 15 then no_delta len else read_option delta len last_number bytes
