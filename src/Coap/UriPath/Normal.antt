-- ===== src/Coap/UriPath/Normal.antt =====
-- `Message::NormalizeUriPath` of src/library/coap.cpp: what it keeps, and what it gets wrong.
use mathlib.Core.List.{append_assoc, append-nil, reverse, reverse-cons, reverse-append}
use ot_commissioner.Common.{
  ℕ, zero, suc, ◌-◌, ◌/◌, ◌%◌, ◌<◌, ◌≡◌, refl, sym, ap, ◌∙◌, arith, false, List, [], ◌∷◌, ◌++◌,
  length, All, ◌==◌, if◌then◌else◌, ok, ◌>>=◌, take, drop, ltb, ◌↔◌, Result, take_all, drop_all,
  replicate, drop-append, length-append,
}
use ot_commissioner.Bytes.{hex_char}
use ot_commissioner.Bytes.RoundTrip.{hex_char-is_xdigit}
use ot_commissioner.Coap.UriPath.{
  is_space, leading_spaces, strip, add_slash, xdigit, prepend, percent_decode, normalize_uri_path,
}

abbrev pub IsPlain : ℕ → Type 0
IsPlain c = ((c == b'/') ≡ false) × ((c == b'%') ≡ false) × (is_space c ≡ false)

All-append : (P : ℕ → Type 0) (xs ys : List ℕ) → All P xs → All P ys → All P (xs ++ ys)
All-append P [] ys hx hy = hy
All-append P (x ∷ xs) ys hx hy = (hx.0, All-append P xs ys hx.1 hy)

All-reverse : (P : ℕ → Type 0) (xs : List ℕ) → All P xs → All P (reverse xs)
All-reverse P [] h = tt
All-reverse P (x ∷ xs) h =
    rw (reverse-cons x xs) (All-append P (reverse xs) (x ∷ []) (All-reverse P xs h.1) (h.0, tt))

leading_spaces-zero : (xs : List ℕ) → All IsPlain xs → leading_spaces xs ≡ 0
unfolding leading_spaces
leading_spaces-zero [] h = refl
leading_spaces-zero (x ∷ xs) (p, h) = rw p.2

strip-plain : (xs : List ℕ) → All IsPlain xs → strip xs ≡ xs
unfolding strip
strip-plain xs h =
    rw (leading_spaces-zero xs h, leading_spaces-zero (reverse xs) (All-reverse IsPlain xs h))
      (take_all (length xs - 0 - 0) xs (omega arith))

percent_decode-plain : (xs : List ℕ) → All IsPlain xs → percent_decode xs ≡ ok xs
unfolding percent_decode prepend
percent_decode-plain [] h = refl
percent_decode-plain (c ∷ []) (p, h) = rw p.1
percent_decode-plain (c ∷ x ∷ []) (p, (q, h)) = rw (p.1, q.1)
percent_decode-plain (c ∷ x ∷ y ∷ rest) (p, h) = rw (p.1, percent_decode-plain (x ∷ y ∷ rest) h)

percent_decode-slash : (xs : List ℕ) → percent_decode (b'/' ∷ xs) ≡ prepend b'/' (percent_decode xs)
unfolding percent_decode prepend
percent_decode-slash [] = refl
percent_decode-slash (x ∷ []) = refl
percent_decode-slash (x ∷ y ∷ rest) = refl

add_slash-plain : (s : List ℕ) → All IsPlain s → add_slash s ≡ b'/' ∷ s
unfolding add_slash
add_slash-plain [] h = refl
add_slash-plain (c ∷ s) (p, h) = rw p.0

-- The result of the loop behind the characters that it does not look at.
decode_from : ℕ → List ℕ → Result (List ℕ)
decode_from begin whole = do rest ← percent_decode (drop begin whole); ok (take begin whole ++ rest)

normalize_uri_path_lem :
    (path : List ℕ)
    → normalize_uri_path path ≡ decode_from (leading_spaces path) (add_slash (strip path))
unfolding normalize_uri_path decode_from
normalize_uri_path_lem path = refl

-- A text with no slash, percent sign or space is kept, behind a slash.
pub normalize_uri_path-plain : (s : List ℕ) → All IsPlain s → normalize_uri_path s ≡ ok (b'/' ∷ s)
unfolding prepend decode_from
normalize_uri_path-plain s h =
    normalize_uri_path_lem s
    ∙ ap (λ (n : ℕ). decode_from n (add_slash (strip s))) (leading_spaces-zero s h)
    ∙ ap (λ (t : List ℕ). decode_from 0 (add_slash t)) (strip-plain s h)
    ∙ ap (decode_from 0) (add_slash-plain s h)
    ∙ rw (percent_decode-slash s, percent_decode-plain s h)

xdigit-hex_char : (n : ℕ) → n < 16 → xdigit (hex_char n) ≡ (if ltb n 10 then n else n - 10)
unfolding xdigit hex_char
xdigit-hex_char n h = ground arith

-- A percent-encoded byte decodes to that byte exactly when both of its digits are below 10: the
-- letters of a HEX digit are taken for 0 to 5.
pub percent_decode-hex_char :
    (b : ℕ)
    → b < 256
    → (percent_decode (b'%' ∷ hex_char (b / 16) ∷ hex_char (b % 16) ∷ []) ≡ ok (b ∷ []))
      ↔ ((b / 16 < 10) × (b % 16 < 10))
unfolding percent_decode prepend
percent_decode-hex_char b h =
    let hi = xdigit-hex_char (b / 16) (omega arith) in
    let lo = xdigit-hex_char (b % 16) (omega arith) in
    rw (hex_char-is_xdigit (b / 16) (omega arith), hex_char-is_xdigit (b % 16) (omega arith))
      (λ e. ground arith, λ small. ground arith)

abbrev pub spaces : ℕ → List ℕ
spaces k = replicate k 32

leading_spaces-stop :
    (xs ys : List ℕ) (c : ℕ)
    → is_space c ≡ false
    → leading_spaces (xs ++ (c ∷ ys)) ≡ leading_spaces (xs ++ (c ∷ []))
unfolding leading_spaces
leading_spaces-stop [] ys c h = rw h
leading_spaces-stop (x ∷ xs) ys c h = ground (arith, leading_spaces-stop xs ys c h)

leading_spaces-replicate : (k : ℕ) (p : List ℕ) → leading_spaces (spaces k ++ (b'/' ∷ p)) ≡ k
unfolding leading_spaces is_space
leading_spaces-replicate zero p = refl
leading_spaces-replicate (suc k) p = ap suc (leading_spaces-replicate k p)

length-spaces : (k : ℕ) → length (spaces k) ≡ k
length-spaces zero = refl
length-spaces (suc k) = ap suc (length-spaces k)

-- Spaces in front change nothing behind.
reverse-spaces :
    (k : ℕ) (p : List ℕ)
    → leading_spaces (reverse (spaces k ++ (b'/' ∷ p))) ≡ leading_spaces (reverse (b'/' ∷ p))
reverse-spaces k p =
    rw (reverse-append (spaces k) (b'/' ∷ p), reverse-cons b'/' p, append_assoc)
      (leading_spaces-stop (reverse p) (reverse (spaces k)) b'/' (unfold is_space in refl))

strip-spaces :
    (k : ℕ) (p : List ℕ)
    → leading_spaces (reverse (b'/' ∷ p)) ≡ 0
    → strip (spaces k ++ (b'/' ∷ p)) ≡ b'/' ∷ p
unfolding strip
strip-spaces k p tail =
    rw (leading_spaces-replicate k p, reverse-spaces k p, tail)
      (ap (take _) (
          ap (λ (n : ℕ). drop n (spaces k ++ (b'/' ∷ p))) (sym (length-spaces k))
          ∙ drop-append (spaces k) (b'/' ∷ p))
        ∙ take_all _ (b'/' ∷ p)
            (omega (arith, length-append (spaces k) (b'/' ∷ p), length-spaces k)))

-- Nothing is decoded in the first characters of a path that had as many spaces in front: a path that
-- starts with a slash, does not end in a space and is not longer than the spaces stripped before it
-- comes back as it is, whatever percent signs it holds.
pub normalize_uri_path-spaces :
    (k : ℕ) (p : List ℕ)
    → leading_spaces (reverse (b'/' ∷ p)) ≡ 0
    → length p < k
    → normalize_uri_path (spaces k ++ (b'/' ∷ p)) ≡ ok (b'/' ∷ p)
unfolding decode_from
normalize_uri_path-spaces k p tail short =
    normalize_uri_path_lem (spaces k ++ (b'/' ∷ p))
    ∙ ap (λ (n : ℕ). decode_from n (add_slash (strip (spaces k ++ (b'/' ∷ p)))))
        (leading_spaces-replicate k p)
    ∙ ap (λ (t : List ℕ). decode_from k (add_slash t)) (strip-spaces k p tail)
    ∙ unfold add_slash in
      rw (drop_all k (b'/' ∷ p) (omega arith), take_all k (b'/' ∷ p) (omega arith))
        (unfold percent_decode in ap ok (append-nil (b'/' ∷ p)))
