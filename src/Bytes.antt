-- ===== src/Bytes.antt =====
-- src/common/utils.hpp and src/common/utils.cpp: integers in big-endian bytes, and HEX text.
-- A ByteArray is a list of numbers below 256. `x & 0xff` is `x % 256`, `x >> 8` is `x / 256`, and
-- `(x << 8) | b` is `x * 256 + b`, since `b` is a byte.
pub mod RoundTrip
pub mod HexErrors
pub mod Bounds
mod Tests
use ot_commissioner.Common.{
  ℕ, zero, suc, ◌+◌, ◌-◌, ◌*◌, ◌/◌, ◌%◌, ◌^◌, ◌<◌, Bool, ◌&&◌, ◌||◌, List, [], ◌∷◌, ◌++◌, length,
  ltb, leb, ◌==◌, if◌then◌else◌, Result, ok, died, invalid_args, ◌>>=◌, ◌>>◌, verify, verify_or_die,
}

abbrev pub IsByte : ℕ → Type 0
IsByte b = b < 256

-- The loop of `Encode<T>`, which fills the k new places from the last one back; the bytes behind
-- the place being filled are the second argument.
encode_loop : ℕ → ℕ → List ℕ → List ℕ
encode_loop zero n filled = filled
encode_loop (suc k) n filled = encode_loop k (n / 256) (n % 256 ∷ filled)

-- `Encode<T>(aBuf, aInteger)` for an integer type of k bytes.
unfoldable pub encode : ℕ → List ℕ → ℕ → List ℕ
unfolding encode_loop
encode k buf n = buf ++ encode_loop k n []

-- The loop of `Decode<T>`, over the bytes from `aBuf[i]` on; `ret` keeps the width of T.
unfoldable pub decode_loop : ℕ → ℕ → ℕ → List ℕ → Result ℕ
decode_loop width zero ret bytes = ok ret
decode_loop width (suc k) ret [] = died
decode_loop width (suc k) ret (b ∷ bytes) =
    decode_loop width k ((ret * 256 + b) % 256 ^ width) bytes

-- `Decode<T>(aBuf)` for an integer type of k bytes. Where the array is shorter, the source reads
-- past its end or fails its assertion: `died`.
unfoldable pub decode : ℕ → List ℕ → Result ℕ
unfolding decode_loop
decode k bytes = decode_loop k k 0 bytes

-- `Hex(const ByteArray &)`: two lower-case digits a byte.
unfoldable pub hex_char : ℕ → ℕ
hex_char c = if ltb c 10 then c + b'0' else c + b'a' - 10

unfoldable pub hex : List ℕ → List ℕ
unfolding hex_char
hex [] = []
hex (b ∷ bytes) = hex_char (b / 16) ∷ hex_char (b % 16) ∷ hex bytes

-- The C library's `isxdigit`.
unfoldable pub is_xdigit : ℕ → Bool
is_xdigit c = leb b'0' c && leb c b'9' || leb b'a' c && leb c b'f' || leb b'A' c && leb c b'F'

-- `Hex(char)`
unfoldable pub hex_digit : ℕ → Result ℕ
unfolding is_xdigit
hex_digit c = do
  verify_or_die (is_xdigit c)
  ok (
      if leb b'A' c && leb c b'F'
      then c - b'A' + 10
      else if leb b'a' c && leb c b'f'
      then c - b'a' + 10
      else c - b'0')

-- The loop of `Hex(ByteArray &, const std::string &)`: two characters a round.
unfoldable pub from_hex_loop : List ℕ → List ℕ → Result (List ℕ)
from_hex_loop buf [] = ok buf
from_hex_loop buf (c ∷ []) = ok buf
from_hex_loop buf (c ∷ d ∷ text) = do
  verify (is_xdigit c && is_xdigit d) invalid_args
  hi ← hex_digit c
  lo ← hex_digit d
  from_hex_loop (buf ++ ((hi * 16 + lo) ∷ [])) text

unfoldable pub from_hex : List ℕ → List ℕ → Result (List ℕ)
unfolding from_hex_loop
from_hex buf text = do verify (length text % 2 == 0) invalid_args; from_hex_loop buf text
