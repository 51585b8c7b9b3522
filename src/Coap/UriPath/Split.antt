-- ===== src/Coap/UriPath/Split.antt =====
-- `Message::SplitUriPath` of src/library/coap.cpp cuts a path at its slashes.
use mathlib.Core.List.{append_assoc, append-nil}
use ot_commissioner.Common.{
  ℕ, ◌<◌, ◌≡◌, refl, sym, ap, ◌∙◌, arith, false, List, [], ◌∷◌, ◌++◌, length, All, ◌==◌, ◌⊎◌, inl,
  inr, Bool-cases,
}
use ot_commissioner.Coap.UriPath.{emit, split_loop, or_root, split_uri_path}

-- No slash in a text.
abbrev pub Slashless : List ℕ → Type 0
Slashless = All λ c. (c == b'/') ≡ false

abbrev pub IsSegment : List ℕ → Type 0
IsSegment s = Slashless s × (0 < length s)

-- A path in the form "/a/b/c".
unfoldable pub join : List (List ℕ) → List ℕ
join [] = []
join (s ∷ segments) = b'/' ∷ s ++ join segments

-- The segments found are all in order.
emit-All :
    (s : List ℕ) (segments : List (List ℕ))
    → Slashless s
    → All IsSegment segments
    → All IsSegment (emit s segments)
unfolding emit
emit-All [] segments h all = all
emit-All (c ∷ s) segments h all = ((h, omega arith), all)

Slashless-snoc :
    (s : List ℕ) (c : ℕ) → Slashless s → (c == b'/') ≡ false → Slashless (s ++ (c ∷ []))
Slashless-snoc [] c h e = (e, tt)
Slashless-snoc (d ∷ s) c h e = (h.0, Slashless-snoc s c h.1 e)

split_loop-All : (path s : List ℕ) → Slashless s → All IsSegment (split_loop s path)
unfolding split_loop
split_loop-All [] s h = emit-All s [] h tt
split_loop-All (c ∷ path) s h = elim (Bool-cases (c == b'/')) [
  | inl slash ↦ rw slash (emit-All s _ h (split_loop-All path [] tt))
  | inr other ↦ rw other (split_loop-All path (s ++ (c ∷ [])) (Slashless-snoc s c h other))
]

split_loop-pass :
    (s t path : List ℕ) → Slashless s → split_loop t (s ++ path) ≡ split_loop (t ++ s) path
unfolding split_loop
split_loop-pass [] t path h = ap (λ (u : List ℕ). split_loop u path) (sym (append-nil t))
split_loop-pass (c ∷ s) t path (e, h) = rw e (
    split_loop-pass s (t ++ (c ∷ [])) path h
    ∙ ap (λ (u : List ℕ). split_loop u path) (append_assoc t (c ∷ []) s))

emit_lem : (s : List ℕ) (segments : List (List ℕ)) → 0 < length s → emit s segments ≡ s ∷ segments
unfolding emit
emit_lem [] segments h = absurd (omega arith)
emit_lem (c ∷ s) segments h = refl

split_loop-join :
    (s : List ℕ) (segments : List (List ℕ))
    → IsSegment s
    → All IsSegment segments
    → split_loop s (join segments) ≡ s ∷ segments
unfolding split_loop join
split_loop-join s [] one all = emit_lem s [] one.1
split_loop-join s (t ∷ segments) one (two, all) =
    ap (emit s) (split_loop-pass t [] (join segments) two.0 ∙ split_loop-join t segments two all)
    ∙ emit_lem s (t ∷ segments) one.1

-- A path "/s1/s2/.." of one segment or more, none of them empty or with a slash in it, is cut into
-- those segments.
pub split_uri_path-join :
    (s : List ℕ) (segments : List (List ℕ))
    → IsSegment s
    → All IsSegment segments
    → split_uri_path (join (s ∷ segments)) ≡ s ∷ segments
unfolding split_uri_path split_loop join or_root emit
split_uri_path-join s segments one all =
    ap or_root (split_loop-pass s [] (join segments) one.0 ∙ split_loop-join s segments one all)

-- Whatever the path, what it is cut into is at least one text, and the segments are free of slashes
-- and not empty, but for the single "/" of a path that has none.
pub split_uri_path_shape :
    (path : List ℕ)
    → (split_uri_path path ≡ (b'/' ∷ []) ∷ [])
      ⊎ (All IsSegment (split_uri_path path) × (0 < length (split_uri_path path)))
unfolding split_uri_path
split_uri_path_shape path = shape (split_loop [] path) (split_loop-All path [] tt)
  where
    shape :
        (segments : List (List ℕ))
        → All IsSegment segments
        → (or_root segments ≡ (b'/' ∷ []) ∷ [])
          ⊎ (All IsSegment (or_root segments) × (0 < length (or_root segments)))
    shape [] all = inl refl
    shape (s ∷ segments) all = inr (all, omega arith)
