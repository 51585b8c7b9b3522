-- ===== src/Coap/Server/Responses.antt =====
-- ResponsesCache of src/library/coap.cpp: which response Match finds after Put, and what Eliminate
-- leaves.
use ot_commissioner.Common.{
  ℕ, ◌+◌, ◌*◌, ◌≤◌, ◌≡◌, refl, arith, [], ◌∷◌, All, ltb, if◌then◌else◌, either, Bool-cases, inl,
  inr, Option, none, some, ltb→lt, or_else,
}
use ot_commissioner.Coap.Server.{
  Addressed, ResponsesCache, exchange_lifetime, emplace_response, put_response, answers,
  match_response,
}

abbrev pub AllBy : ℕ → ResponsesCache → Type 0
AllBy limit cache = All (λ entry. entry.0 ≤ limit) cache

-- No response was put in the cache after `now`.
abbrev pub IsRecent : ℕ → ResponsesCache → Type 0
IsRecent now cache = AllBy (now + exchange_lifetime * 1000) cache

pub AllBy-later : (a b : ℕ) (cache : ResponsesCache) → a ≤ b → AllBy a cache → AllBy b cache
AllBy-later a b [] le all = tt
AllBy-later a b ((t, r) ∷ cache) le (h, all) = (omega arith, AllBy-later a b cache le all)

emplace-AllBy :
    (time : ℕ) (r : Addressed) (cache : ResponsesCache)
    → AllBy time cache
    → AllBy time (emplace_response time r cache)
unfolding emplace_response
emplace-AllBy time r [] all = (omega arith, tt)
emplace-AllBy time r ((t, x) ∷ cache) (h, all) =
    either (AllBy time) (ltb time t) (λ e. (omega arith, (h, all)))
      (λ e. (h, emplace-AllBy time r cache all))

pub put_response-IsRecent :
    (now : ℕ) (r : Addressed) (cache : ResponsesCache)
    → IsRecent now cache
    → IsRecent now (put_response now r cache)
unfolding put_response
put_response-IsRecent now r cache recent = emplace-AllBy _ r cache recent

match-emplace :
    (endpoint id time : ℕ) (r : Addressed) (cache : ResponsesCache)
    → AllBy time cache
    → match_response endpoint id (emplace_response time r cache)
      ≡ or_else (match_response endpoint id cache) (if answers endpoint id r then some r else none)
unfolding match_response emplace_response
match-emplace endpoint id time r [] all = refl
match-emplace endpoint id time r ((t, x) ∷ cache) (h, all) = elim (Bool-cases (ltb time t)) [
  | inl e ↦ absurd (omega (arith, ltb→lt time t e))
  | inr e ↦ rw e (
      either
        (λ (found : Option Addressed).
          found
          ≡ or_else (if answers endpoint id x then some x else match_response endpoint id cache)
              (if answers endpoint id r then some r else none))
        (answers endpoint id x) (λ f. rw f refl)
        (λ f. rw f (match-emplace endpoint id time r cache all)))
]

-- The first response for an endpoint and a message id stays the one that is found.
pub match-put_response :
    (endpoint id now : ℕ) (r : Addressed) (cache : ResponsesCache)
    → IsRecent now cache
    → match_response endpoint id (put_response now r cache)
      ≡ or_else (match_response endpoint id cache) (if answers endpoint id r then some r else none)
unfolding put_response
match-put_response endpoint id now r cache recent = match-emplace endpoint id _ r cache recent
