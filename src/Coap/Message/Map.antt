-- ===== src/Coap/Message/Map.antt =====
-- The option map of a message of src/library/coap.cpp, built up again from what was written for it.
use mathlib.Core.List.{append_assoc, append-nil}
use ot_commissioner.Common.{
  ℕ, suc, ◌≤◌, ◌<◌, ◌≡◌, refl, sym, ap, ◌∙◌, arith, true, false, List, [], ◌∷◌, ◌++◌, length, All,
  ◌==◌, ok,
}
use ot_commissioner.Coap.OptionType
use ot_commissioner.Coap.Options.{is_valid_option}
use ot_commissioner.Coap.UriPath.Split.{join, IsSegment, Slashless}
use ot_commissioner.Coap.UriPath.Normal.{IsPlain, normalize_uri_path-plain}
use ot_commissioner.Coap.Message.{
  OptionMap, emplace, extend_option, append_uri_path, append_option, try_append, accept_option,
}
use ot_commissioner.Coap.Message.Wire.{tagged, accept_all, AreWritable}

-- The numbers are all below the bound.
abbrev pub AreBelow : ℕ → OptionMap → Type 0
AreBelow bound = All λ o. o.0 < bound

pub AreBelow-mono :
    {m n : ℕ} (options : OptionMap) → m ≤ n → AreBelow m options → AreBelow n options
AreBelow-mono [] h b = tt
AreBelow-mono (o ∷ options) h b = (omega arith, AreBelow-mono options h b.1)

pub AreBelow-snoc :
    (n : ℕ) (v : List ℕ) (options : OptionMap)
    → AreBelow n options
    → AreBelow (suc n) (options ++ ((n, v) ∷ []))
AreBelow-snoc n v [] b = (omega arith, tt)
AreBelow-snoc n v (o ∷ options) b = (omega arith, AreBelow-snoc n v options b.1)

emplace-snoc :
    (number : ℕ) (value : List ℕ) (options : OptionMap)
    → AreBelow number options
    → emplace number value options ≡ options ++ ((number, value) ∷ [])
unfolding emplace
emplace-snoc number value [] b = refl
emplace-snoc number value ((n, v) ∷ options) b =
    ground (arith, emplace-snoc number value options b.1)

pub extend_option-snoc :
    (number : ℕ) (value : List ℕ) (options : OptionMap)
    → AreBelow number options
    → extend_option number value options ≡ options ++ ((number, value) ∷ [])
unfolding extend_option
extend_option-snoc number value [] b = refl
extend_option-snoc number value ((n, v) ∷ options) b =
    ground (arith, extend_option-snoc number value options b.1)

extend_option-last :
    (number : ℕ) (value more : List ℕ) (options : OptionMap)
    → AreBelow number options
    → extend_option number more (options ++ ((number, value) ∷ []))
      ≡ options ++ ((number, value ++ more) ∷ [])
unfolding extend_option
extend_option-last number value more [] b = ground arith
extend_option-last number value more ((n, v) ∷ options) b =
    ground (arith, extend_option-last number value more options b.1)

pub accept_valid :
    (number : ℕ) (value : List ℕ) (options : OptionMap)
    → is_valid_option number (length value) ≡ true
    → (number == OptionType.uri_path) ≡ false
    → AreBelow number options
    → accept_option number value options ≡ ok (options ++ ((number, value) ∷ []))
unfolding accept_option try_append append_option
accept_valid number value options valid plain b =
    rw (valid, plain) (ap ok (emplace-snoc number value options b))

pub accept_segment :
    (s : List ℕ) (options : OptionMap)
    → is_valid_option OptionType.uri_path (length s) ≡ true
    → All IsPlain s
    → accept_option OptionType.uri_path s options
      ≡ ok (extend_option OptionType.uri_path (b'/' ∷ s) options)
unfolding accept_option try_append append_option append_uri_path
accept_segment s options valid plain = rw (valid, normalize_uri_path-plain s plain)

-- A segment that is cut and put back as it was.
abbrev pub IsKept : List ℕ → Type 0
IsKept s = All IsPlain s × (0 < length s)

abbrev pub IsPath : List ℕ → Type 0
IsPath path =
    (s : List ℕ) × (segments : List (List ℕ)) × (path ≡ join (s ∷ segments))
    × IsKept s
    × All IsKept segments

-- In order, from a bound on, and each path in the form that reading produces.
abbrev pub IsCanonical : ℕ → OptionMap → Type 0
IsCanonical bound [] = Unit {0}
IsCanonical bound ((number, value) ∷ options) =
    (bound ≤ number)
    × (number ≡ OptionType.uri_path → IsPath value)
    × IsCanonical (suc number) options

Slashless-plain : (s : List ℕ) → All IsPlain s → Slashless s
Slashless-plain [] h = tt
Slashless-plain (c ∷ s) h = (h.0.0, Slashless-plain s h.1)

pub segments-plain : (segments : List (List ℕ)) → All IsKept segments → All IsSegment segments
segments-plain [] h = tt
segments-plain (s ∷ segments) h = ((Slashless-plain s h.0.0, h.0.1), segments-plain segments h.1)

-- The segments of a path after the first, put behind it one by one.
pub accept_segments :
    (segments : List (List ℕ)) (path : List ℕ) (last : ℕ) (options rest : OptionMap)
    → AreBelow OptionType.uri_path options
    → AreWritable last (tagged segments ++ rest)
    → All IsKept segments
    → accept_all (tagged segments ++ rest) (options ++ ((OptionType.uri_path, path) ∷ []))
      ≡ accept_all rest (options ++ ((OptionType.uri_path, path ++ join segments) ∷ []))
unfolding accept_all tagged join
accept_segments [] path last options rest b w k =
    ap (λ (p : List ℕ). accept_all rest (options ++ ((OptionType.uri_path, p) ∷ [])))
      (sym (append-nil path))
accept_segments (s ∷ segments) path last options rest b (one, w) (kept, k) =
    rw
      (
        accept_segment s (options ++ ((OptionType.uri_path, path) ∷ [])) one.2 kept.0,
        extend_option-last OptionType.uri_path path (b'/' ∷ s) options b,
      )
      (accept_segments segments (path ++ (b'/' ∷ s)) OptionType.uri_path options rest b w k
        ∙ ap (λ (p : List ℕ). accept_all rest (options ++ ((OptionType.uri_path, p) ∷ [])))
            (append_assoc path (b'/' ∷ s) (join segments)))
