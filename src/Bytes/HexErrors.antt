-- ===== src/Bytes/HexErrors.antt =====
-- Which texts `Hex(ByteArray &, const std::string &)` of src/common/utils.cpp takes.
use mathlib.Core.List.{append_assoc, append-nil}
use ot_commissioner.Common.{
  ℕ, ◌+◌, ◌-◌, ◌*◌, ◌%◌, ◌<◌, ◌≡◌, sym, ap, ◌∙◌, arith, List, [], ◌∷◌, ◌++◌, length, All, ok, err,
  invalid_args, true, ◌&&◌, ◌==◌, leb, if◌then◌else◌, ◌⊎◌, inl, inr, Bool-cases,
}
use ot_commissioner.Bytes.{IsByte, is_xdigit, hex_digit, from_hex_loop, from_hex}

abbrev pub AllDigits : List ℕ → Type 0
AllDigits = All λ c. is_xdigit c ≡ true

hex_digit-total : (c : ℕ) → is_xdigit c ≡ true → (n : ℕ) × (hex_digit c ≡ ok n) × (n < 16)
unfolding hex_digit
hex_digit-total c h = (
  if leb b'A' c && leb c b'F'
      then c - b'A' + 10
      else if leb b'a' c && leb c b'f'
      then c - b'a' + 10
      else c - b'0',
  ground arith,
  ground arith,
)

-- What the loop does with a text of even length.
abbrev pub Reads : List ℕ → List ℕ → Type 0
Reads buf text =
    ((bytes : List ℕ) × (from_hex_loop buf text ≡ ok (buf ++ bytes))
      × (2 * length bytes ≡ length text)
      × AllDigits text
      × All IsByte bytes)
    ⊎ ((from_hex_loop buf text ≡ err invalid_args) × ¬ AllDigits text)

Reads-cons :
    (buf : List ℕ) (c d hi lo : ℕ) (text : List ℕ)
    → is_xdigit c ≡ true
    → is_xdigit d ≡ true
    → hex_digit c ≡ ok hi
    → hi < 16
    → hex_digit d ≡ ok lo
    → lo < 16
    → Reads (buf ++ ((hi * 16 + lo) ∷ [])) text
    → Reads buf (c ∷ d ∷ text)
unfolding from_hex_loop
Reads-cons buf c d hi lo text xc xd hc bc hd bd (inl (bytes, e, len, digits, small)) = inl (
  (hi * 16 + lo) ∷ bytes,
  rw (xc, xd, hc, hd) (e ∙ ap ok (append_assoc buf ((hi * 16 + lo) ∷ []) bytes)),
  omega arith,
  (xc, (xd, digits)),
  (omega arith, small),
)
Reads-cons buf c d hi lo text xc xd hc bc hd bd (inr (e, odd)) =
    inr (rw (xc, xd, hc, hd) e, λ digits. odd digits.1.1)

from_hex_loop-Reads : (text buf : List ℕ) → length text % 2 ≡ 0 → Reads buf text
unfolding from_hex_loop
from_hex_loop-Reads [] buf h = inl ([], ap ok (sym (append-nil buf)), omega arith, tt, tt)
from_hex_loop-Reads (c ∷ []) buf h = absurd (omega arith)
from_hex_loop-Reads (c ∷ d ∷ text) buf h = elim (Bool-cases (is_xdigit c)) [
  | inr nc ↦ inr (rw nc, λ digits. cc (digits.0))
  | inl xc ↦ elim (Bool-cases (is_xdigit d)) [
    | inr nd ↦ inr (rw (xc, nd), λ digits. cc (digits.1.0))
    | inl xd ↦
        let (hi, hc, bc) = hex_digit-total c xc in
        let (lo, hd, bd) = hex_digit-total d xd in
        Reads-cons buf c d hi lo text xc xd hc bc hd bd
          (from_hex_loop-Reads text (buf ++ ((hi * 16 + lo) ∷ [])) (omega arith))
  ]
]

-- `Hex` never aborts. It takes exactly the texts of even length all of whose characters are HEX
-- digits, and appends half as many bytes as the text has characters; any other text is refused
-- with `invalid_args`.
pub from_hex_total :
    (buf text : List ℕ)
    → ((bytes : List ℕ) × (from_hex buf text ≡ ok (buf ++ bytes))
        × (2 * length bytes ≡ length text)
        × AllDigits text
        × All IsByte bytes)
      ⊎ ((from_hex buf text ≡ err invalid_args) × ((length text % 2 ≡ 1) ⊎ (¬ AllDigits text)))
unfolding from_hex
from_hex_total buf text = elim (Bool-cases (length text % 2 == 0)) [
  | inr odd ↦ inr (rw odd, inl (ground arith))
  | inl even ↦ elim (from_hex_loop-Reads text buf (ground arith)) [
    | inl (bytes, e, len, digits, small) ↦ inl (bytes, rw even e, len, digits, small)
    | inr (e, bad) ↦ inr (rw even e, inr bad)
  ]
]
