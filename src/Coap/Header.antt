-- ===== src/Coap/Header.antt =====
-- The message header of src/library/coap.hpp and its two codecs in src/library/coap.cpp.
-- An offset into the buffer is the part of the buffer that it leaves to be read.
use ot_commissioner.Common.{
  ℕ, ◌+◌, ◌*◌, ◌/◌, ◌%◌, ◌^◌, ◌<◌, ◌≤◌, ◌≡◌, arith, Bool, true, ◌&&◌, List, ◌∷◌, ◌++◌, length, take,
  drop, leb, ◌==◌, Result, ok, err, bad_format, invalid_args, ◌>>◌, verify, min, ap, take-append,
  take_all, drop-append, length-append, le→leb, ◌∙◌,
}
use mathlib.Core.Path.{ap₂}

abbrev pub max_token_length : ℕ
max_token_length = 8

abbrev pub version_1 : ℕ
version_1 = 1

-- `token` holds the first min(8, mTokenLength) bytes of the array mToken: no others are read.
pub record Header : Type 0 where
  pub version : ℕ
  pub type : ℕ
  pub token_length : ℕ
  pub code : ℕ
  pub message_id : ℕ
  pub token : List ℕ

unfoldable pub header_is_valid : Header → Bool
header_is_valid h = h.version == version_1 && leb h.token_length max_token_length

unfoldable pub serialize_header : Header → List ℕ → Result (List ℕ)
serialize_header h buf = do
  verify (header_is_valid h) invalid_args
  ok (
      buf
      ++ (h.version * 2 ^ 6 + h.type * 2 ^ 4 + h.token_length)
        ∷ h.code
        ∷ (h.message_id / 2 ^ 8 % 2 ^ 8)
        ∷ (h.message_id % 2 ^ 8)
        ∷ take h.token_length h.token)

-- The bit fields cut what is assigned to them: 2, 2 and 4 bits.
abbrev pub read_header : ℕ → ℕ → ℕ → ℕ → List ℕ → Header
read_header b code hi lo rest = record {
  version = b / 2 ^ 6 % 4;
  type = b / 2 ^ 4 % 4;
  token_length = b % 16;
  code = code;
  message_id = hi * 2 ^ 8 + lo;
  token = take (min (b % 16) max_token_length) rest;
}

unfoldable pub deserialize_header : List ℕ → Result (Header × List ℕ)
deserialize_header (b ∷ code ∷ hi ∷ lo ∷ rest) = do
  verify (leb (b % 16) (length rest)) bad_format
  ok (read_header b code hi lo rest, drop (b % 16) rest)
deserialize_header _ = err bad_format

-- What the constructors and setters of Message keep of a header.
pub record IsHeader (h : Header) : Type 0 where
  pub valid : header_is_valid h ≡ true
  pub type_fits : h.type < 4
  pub code_fits : h.code < 256
  pub id_fits : h.message_id < 2 ^ 16
  pub token_fits : length h.token ≡ h.token_length

unfoldable pub header_bytes : Header → List ℕ
header_bytes h =
    (h.version * 2 ^ 6 + h.type * 2 ^ 4 + h.token_length)
    ∷ h.code
    ∷ (h.message_id / 2 ^ 8 % 2 ^ 8)
    ∷ (h.message_id % 2 ^ 8)
    ∷ h.token

pub serialize_header_lem :
    (h : Header) (buf : List ℕ) → IsHeader h → serialize_header h buf ≡ ok (buf ++ header_bytes h)
unfolding serialize_header header_bytes
serialize_header_lem h buf is =
    let all : take h.token_length h.token ≡ h.token =
      take_all h.token_length h.token (omega arith) in
    rw (is.valid, all)

-- The fields are read off the first byte, and the token off the front of what follows.
read_header_lem :
    (h : Header) (b hi lo : ℕ) (rest : List ℕ)
    → b / 2 ^ 6 % 4 ≡ h.version
    → b / 2 ^ 4 % 4 ≡ h.type
    → b % 16 ≡ length h.token
    → length h.token ≡ h.token_length
    → length h.token ≤ 8
    → hi * 2 ^ 8 + lo ≡ h.message_id
    → read_header b h.code hi lo (h.token ++ rest) ≡ h
read_header_lem h b hi lo rest v t n l small id = λ i. record {
  version = v i;
  type = t i;
  token_length = (n ∙ l) i;
  code = h.code;
  message_id = id i;
  token = token i;
}
  where
    token : take (min (b % 16) max_token_length) (h.token ++ rest) ≡ h.token
    token = ap (λ (k : ℕ). take k (h.token ++ rest)) (omega arith) ∙ take-append h.token rest

pub deserialize_header_bytes :
    (h : Header) (rest : List ℕ)
    → IsHeader h
    → deserialize_header (header_bytes h ++ rest) ≡ ok (h, rest)
unfolding deserialize_header header_bytes header_is_valid
deserialize_header_bytes h rest is =
    let b : ℕ = h.version * 2 ^ 6 + h.type * 2 ^ 4 + h.token_length in
    let one : h.version ≡ 1 = ground (arith, is.valid) in
    let small : h.token_length ≤ 8 = ground (arith, is.valid) in
    let n : b % 16 ≡ length h.token = omega arith in
    rw (le→leb (b % 16) (length (h.token ++ rest)) (omega (arith, length-append h.token rest))) (
      ap₂ (λ (g : Header) (r : List ℕ). ok (g, r))
        (read_header_lem h b _ _ rest (omega arith) (omega arith) n is.token_fits (omega arith)
          (omega arith))
        (ap (λ (k : ℕ). drop k (h.token ++ rest)) n ∙ drop-append h.token rest))

-- A header that the setters can build is written, and read back from there with what follows.
pub deserialize_header-serialize_header :
    (h : Header) (buf rest : List ℕ)
    → IsHeader h
    → (bytes : List ℕ) × (serialize_header h buf ≡ ok (buf ++ bytes))
      × (deserialize_header (bytes ++ rest) ≡ ok (h, rest))
deserialize_header-serialize_header h buf rest is =
    (header_bytes h, serialize_header_lem h buf is, deserialize_header_bytes h rest is)
