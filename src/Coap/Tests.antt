-- ===== src/Coap/Tests.antt =====
-- Concrete runs of the codecs of src/library/coap.cpp, and the theorems at concrete inputs.
use ot_commissioner.Common.{
  ℕ, ◌≡◌, refl, arith, List, [], ◌∷◌, ◌++◌, ok, died, ◌⊎◌, ◌↔◌, Returns, replicate,
}
use ot_commissioner.Coap.Header.{Header, IsHeader, header_is_valid}
use ot_commissioner.Coap.OptionType
use ot_commissioner.Coap.Options.{is_valid_option, serialize_option, deserialize_option}
use ot_commissioner.Coap.Options.Codec.{
  IsMiscounted, serialize_option-died, deserialize_option-serialize_option,
}
use ot_commissioner.Coap.UriPath.{split_uri_path, is_space}
use ot_commissioner.Coap.UriPath.Split.{join}
use ot_commissioner.Coap.Message.{Message, serialize, deserialize}
use ot_commissioner.Coap.Message.Wire.{option_list, pieces, tagged}
use ot_commissioner.Coap.Message.RoundTrip.{IsWireable, deserialize-serialize_message}
use ot_commissioner.Coap.Message.Total.{deserialize-Returns}

-- A confirmable POST to "/c/lp", with a token of two bytes and a payload.
abbrev petition_header : Header
petition_header = record {
  version = 1;
  type = 0;
  token_length = 2;
  code = 2;
  message_id = 0x1234;
  token = 5 ∷ 6 ∷ [];
}

abbrev petition : Message
petition = record {
  header = petition_header;
  options = (OptionType.uri_path, b'/' ∷ b'c' ∷ b'/' ∷ b'l' ∷ b'p' ∷ []) ∷ [];
  payload = 9 ∷ [];
}

petition_header-IsHeader : IsHeader petition_header
unfolding header_is_valid
petition_header-IsHeader = record {
  valid = refl;
  type_fits = omega arith;
  code_fits = omega arith;
  id_fits = omega arith;
  token_fits = refl;
}

petition-IsWireable : IsWireable petition
unfolding option_list pieces tagged split_uri_path is_valid_option join is_space
petition-IsWireable = record {
  header_ok = petition_header-IsHeader;
  writable = (
    (omega arith, omega arith, refl, (λ m. omega arith), λ m. omega arith),
    ((omega arith, omega arith, refl, (λ m. omega arith), λ m. omega arith), tt),
  );
  canonical = (
    omega arith,
    (λ e. (
      b'c' ∷ [],
      (b'l' ∷ b'p' ∷ []) ∷ [],
      refl,
      (((refl, refl, refl), tt), omega arith),
      ((((refl, refl, refl), ((refl, refl, refl), tt)), omega arith), tt),
    )),
    tt,
  );
}

deserialize-serialize_message_example :
    (bytes : List ℕ) × (serialize petition [] ≡ ok bytes) × (deserialize bytes ≡ ok petition)
deserialize-serialize_message_example = deserialize-serialize_message petition petition-IsWireable

deserialize-Returns_example : Returns (deserialize (0x42 ∷ 2 ∷ 0 ∷ 1 ∷ 5 ∷ 6 ∷ 0xdd ∷ 1 ∷ []))
deserialize-Returns_example = deserialize-Returns (0x42 ∷ 2 ∷ 0 ∷ 1 ∷ 5 ∷ 6 ∷ 0xdd ∷ 1 ∷ [])

deserialize_option-serialize_option_example :
    (bytes : List ℕ) × (serialize_option 12 (0 ∷ 60 ∷ []) 11 [] ≡ ok bytes)
    × (deserialize_option 11 (bytes ++ (7 ∷ [])) ≡ ok (12, 0 ∷ 60 ∷ [], 7 ∷ []))
unfolding is_valid_option
deserialize_option-serialize_option_example =
    deserialize_option-serialize_option 12 11 (0 ∷ 60 ∷ []) [] (7 ∷ [])
      (omega arith, omega arith, refl, (λ m. omega arith), λ m. omega arith)

-- A path segment of 20 bytes.
serialize_option-died_example :
    (serialize_option 11 (replicate 20 b'a') 0 [] ≡ died) ↔ (IsMiscounted 11 ⊎ IsMiscounted 20)
unfolding is_valid_option
serialize_option-died_example = serialize_option-died 11 0 (replicate 20 b'a') [] (omega arith) refl
