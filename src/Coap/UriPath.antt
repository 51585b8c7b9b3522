-- ===== src/Coap/UriPath.antt =====
-- `Message::SplitUriPath` and `Message::NormalizeUriPath` of src/library/coap.cpp. A string is the
-- list of its bytes.
pub mod Split
pub mod Normal
use ot_commissioner.Common.{
  ℕ, zero, suc, ◌+◌, ◌-◌, ◌*◌, Bool, true, false, ◌&&◌, ◌||◌, List, [], ◌∷◌, ◌++◌, length, take,
  drop, leb, ◌==◌, if◌then◌else◌, Result, ok, err, invalid_args, ◌>>=◌, ◌>>◌, verify,
}
use ot_commissioner.Bytes.{is_xdigit}
use mathlib.Core.List.{reverse}

-- `if (pos > begin)`: an empty segment is left out.
emit : List ℕ → List (List ℕ) → List (List ℕ)
emit [] segments = segments
emit (c ∷ segment) segments = (c ∷ segment) ∷ segments

-- The loop over the slashes; the first argument is the text from `begin` on that has been passed.
split_loop : List ℕ → List ℕ → List (List ℕ)
unfolding emit
split_loop segment [] = emit segment []
split_loop segment (c ∷ rest) =
    let cut = emit segment (split_loop [] rest) in
    let longer = split_loop (segment ++ (c ∷ [])) rest in if c == b'/' then cut else longer

or_root : List (List ℕ) → List (List ℕ)
or_root [] = (b'/' ∷ []) ∷ []
or_root (segment ∷ segments) = segment ∷ segments

unfoldable pub split_uri_path : List ℕ → List (List ℕ)
unfolding split_loop or_root
split_uri_path path = or_root (split_loop [] path)

-- The C library's `isspace`.
unfoldable pub is_space : ℕ → Bool
is_space c = c == 32 || leb 9 c && leb c 13

-- How many spaces stand in front.
unfoldable pub leading_spaces : List ℕ → ℕ
leading_spaces [] = 0
leading_spaces (c ∷ rest) = let more = suc (leading_spaces rest) in if is_space c then more else 0

-- `substr(begin, end - begin)`. On a text of spaces alone the difference wraps, and what is left from
-- `begin` on is empty all the same.
unfoldable pub strip : List ℕ → List ℕ
strip path =
    take (length path - leading_spaces (reverse path) - leading_spaces path)
      (drop (leading_spaces path) path)

unfoldable pub add_slash : List ℕ → List ℕ
add_slash [] = b'/' ∷ []
add_slash (c ∷ rest) = if c == b'/' then c ∷ rest else b'/' ∷ c ∷ rest

-- The lambda `xdigit`. It does not add 10 to a letter's distance from A.
unfoldable pub xdigit : ℕ → ℕ
xdigit c =
    if leb b'A' c && leb c b'F'
    then c - b'A'
    else if leb b'a' c && leb c b'f'
    then c - b'a'
    else c - b'0'

-- Puts a decoded or a plain character in front of the rest of the loop's result.
unfoldable pub prepend : ℕ → Result (List ℕ) → Result (List ℕ)
prepend c r = do rest ← r; ok (c ∷ rest)

-- The loop over the percent signs, from `begin` on. A character that has been written is passed over.
unfoldable pub percent_decode : List ℕ → Result (List ℕ)
unfolding prepend
percent_decode [] = ok []
percent_decode (c ∷ []) = if c == b'%' then err invalid_args else ok (c ∷ [])
percent_decode (c ∷ x ∷ []) =
    let plain = prepend c (percent_decode (x ∷ [])) in if c == b'%' then err invalid_args else plain
percent_decode (c ∷ x ∷ y ∷ rest) =
    let decoded = prepend (xdigit x * 16 + xdigit y) (percent_decode rest) in
    let plain = prepend c (percent_decode (x ∷ y ∷ rest)) in
    if c == b'%' then (if is_xdigit x && is_xdigit y then decoded else err invalid_args) else plain

-- The search for percent signs starts at `begin`, which still counts the spaces stripped in front.
unfoldable pub normalize_uri_path : List ℕ → Result (List ℕ)
normalize_uri_path path = do
  let begin = leading_spaces path
  let whole = add_slash (strip path)
  rest ← percent_decode (drop begin whole)
  ok (take begin whole ++ rest)
