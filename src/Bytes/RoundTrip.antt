-- ===== src/Bytes/RoundTrip.antt =====
-- Big-endian integers and HEX text of src/common/utils.{hpp,cpp}, read back.
use native.Mathlib.Nat.{mod-eq_of_lt, pow-suc}
use mathlib.Core.List.{append_assoc, append-nil}
use ot_commissioner.Common.{
  ℕ, zero, suc, ◌+◌, ◌*◌, ◌/◌, ◌%◌, ◌^◌, ◌<◌, ◌≡◌, refl, sym, ap, ◌∙◌, arith, List, [], ◌∷◌, ◌++◌,
  length, All, ok, true,
}
use ot_commissioner.Bytes.{
  IsByte, encode_loop, encode, decode_loop, decode, hex_char, hex, is_xdigit, hex_digit,
  from_hex_loop, from_hex,
}

encode_loop-append :
    (k n : ℕ) (filled rest : List ℕ)
    → encode_loop k n filled ++ rest ≡ encode_loop k n (filled ++ rest)
unfolding encode_loop
encode_loop-append zero n filled rest = refl
encode_loop-append (suc k) n filled rest = encode_loop-append k (n / 256) (n % 256 ∷ filled) rest

-- Splitting off the lowest byte: what is read so far, and what the next round makes of it.
split_byte : (k n ret : ℕ) → (ret * 256 ^ k + n / 256) * 256 + n % 256 ≡ ret * 256 ^ suc k + n
split_byte k n ret = omega (arith, ap (λ (t : ℕ). ret * t) (pow-suc 256 k))

decode_loop-encode_loop :
    (k j width n ret : ℕ) (filled : List ℕ)
    → n < 256 ^ k
    → ret * 256 ^ k + n < 256 ^ width
    → decode_loop width (k + j) ret (encode_loop k n filled)
      ≡ decode_loop width j (ret * 256 ^ k + n) filled
unfolding decode_loop encode_loop
decode_loop-encode_loop zero j width n ret filled h fits =
    ap (λ (i : ℕ). decode_loop width i ret filled) (omega arith)
    ∙ ap (λ (r : ℕ). decode_loop width j r filled) (omega arith)
decode_loop-encode_loop (suc k) j width n ret filled h fits =
    ap (λ (i : ℕ). decode_loop width i ret (encode_loop k (n / 256) (n % 256 ∷ filled)))
      (omega arith)
    ∙ decode_loop-encode_loop k (suc j) width (n / 256) ret (n % 256 ∷ filled)
        (omega (arith, pow-suc 256 k)) (omega (arith, split_byte k n ret))
    ∙ ap (λ (r : ℕ). decode_loop width j r filled)
        (ap (λ (r : ℕ). r % 256 ^ width) (split_byte k n ret) ∙ mod-eq_of_lt fits)

-- Behind an integer of k bytes the decoder ignores whatever follows.
pub decode-encode :
    (k n : ℕ) (rest : List ℕ) → n < 256 ^ k → decode k (encode k [] n ++ rest) ≡ ok n
unfolding decode encode
decode-encode k n rest h =
    ap (decode_loop k k 0) (encode_loop-append k n [] rest)
    ∙ ap (λ (i : ℕ). decode_loop k i 0 (encode_loop k n rest)) (omega arith)
    ∙ decode_loop-encode_loop k 0 k n 0 rest h (omega arith)
    ∙ ap ok (omega arith)

length-encode_loop :
    (k n : ℕ) (filled : List ℕ) → length (encode_loop k n filled) ≡ k + length filled
unfolding encode_loop
length-encode_loop zero n filled = omega arith
length-encode_loop (suc k) n filled =
    omega (arith, length-encode_loop k (n / 256) (n % 256 ∷ filled))

pub length-encode : (k n : ℕ) → length (encode k [] n) ≡ k
unfolding encode
length-encode k n = omega (arith, length-encode_loop k n [])

encode_loop-IsByte :
    (k n : ℕ) (filled : List ℕ) → All IsByte filled → All IsByte (encode_loop k n filled)
unfolding encode_loop
encode_loop-IsByte zero n filled h = h
encode_loop-IsByte (suc k) n filled h =
    encode_loop-IsByte k (n / 256) (n % 256 ∷ filled) (omega arith, h)

pub encode-IsByte : (k n : ℕ) → All IsByte (encode k [] n)
unfolding encode
encode-IsByte k n = encode_loop-IsByte k n [] tt

-- `hex` writes digits that `is_xdigit` takes and `hex_digit` reads.
pub hex_char-is_xdigit : (c : ℕ) → c < 16 → is_xdigit (hex_char c) ≡ true
unfolding is_xdigit hex_char
hex_char-is_xdigit c h = ground arith

hex_digit-hex_char : (c : ℕ) → c < 16 → hex_digit (hex_char c) ≡ ok c
unfolding hex_digit hex_char
hex_digit-hex_char c h = ground arith

-- One round of the loop over the two digits of a byte.
from_hex_round :
    (b : ℕ) (buf text : List ℕ)
    → b < 256
    → from_hex_loop buf (hex_char (b / 16) ∷ hex_char (b % 16) ∷ text)
      ≡ from_hex_loop (buf ++ (b ∷ [])) text
unfolding from_hex_loop
from_hex_round b buf text h =
    rw
      (
        hex_char-is_xdigit (b / 16) (omega arith),
        hex_char-is_xdigit (b % 16) (omega arith),
        hex_digit-hex_char (b / 16) (omega arith),
        hex_digit-hex_char (b % 16) (omega arith),
      )
      (ap (λ (c : ℕ). from_hex_loop (buf ++ (c ∷ [])) text) (omega arith))

from_hex_loop-hex :
    (bytes buf : List ℕ) → All IsByte bytes → from_hex_loop buf (hex bytes) ≡ ok (buf ++ bytes)
unfolding from_hex_loop hex
from_hex_loop-hex [] buf h = ap ok (sym (append-nil buf))
from_hex_loop-hex (b ∷ bytes) buf (hb, hbs) =
    from_hex_round b buf (hex bytes) hb
    ∙ from_hex_loop-hex bytes (buf ++ (b ∷ [])) hbs
    ∙ ap ok (append_assoc buf (b ∷ []) bytes)

length-hex : (bytes : List ℕ) → length (hex bytes) ≡ 2 * length bytes
unfolding hex
length-hex [] = omega arith
length-hex (b ∷ bytes) = omega (arith, length-hex bytes)

-- The HEX text of a byte array reads back as that array, appended to the given buffer.
pub from_hex-hex :
    (buf bytes : List ℕ) → All IsByte bytes → from_hex buf (hex bytes) ≡ ok (buf ++ bytes)
unfolding from_hex
from_hex-hex buf bytes h = ground (arith, length-hex bytes, from_hex_loop-hex bytes buf h)

pub decode-encode_all : (k n : ℕ) → n < 256 ^ k → decode k (encode k [] n) ≡ ok n
decode-encode_all k n h =
    ap (λ (bytes : List ℕ). decode k bytes) (sym (append-nil (encode k [] n)))
    ∙ decode-encode k n [] h
