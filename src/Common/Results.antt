-- ===== src/Common/Results.antt =====
-- How a call ends: with a value, with an error (include/commissioner/error.hpp, its message
-- left out), or in `abort`, which VerifyOrDie and SuccessOrDie of src/common/utils.hpp call.
use mathlib.Core.Path.{◌≡◌, refl, ap, ◌∙◌, subst}
use mathlib.Core.Bool.{Bool, true, false}
use mathlib.Core.Logic.{◌⊎◌, inl, inr}
use ot_commissioner.Common.Tests.{if◌then◌else◌}

pub data ErrorCode : Type 0 where
  cancelled invalid_args invalid_command timeout not_found security unimplemented : ErrorCode
  bad_format busy out_of_memory io_error io_busy already_exists aborted : ErrorCode
  invalid_state rejected coap_error unknown : ErrorCode

pub data Result {ℓ} (A : Type ℓ) : Type ℓ where
  ok : A → Result A
  err : ErrorCode → Result A
  died : Result A

infixl 5 ◌>>=◌ ◌>>◌
abbrev pub ◌>>=◌ {ℓ κ} :
    {Value : Type ℓ} {Next : Type κ} → Result Value → (Value → Result Next) → Result Next
died >>= next = died
err code >>= next = err code
ok value >>= next = next value

-- A statement whose result is not used.
abbrev pub ◌>>◌ {ℓ} : {Next : Type ℓ} → Result (Unit {0}) → Result Next → Result Next
first >> next = first >>= λ _. next

-- VerifyOrExit, and VerifyOrDie.
abbrev pub verify : Bool → ErrorCode → Result (Unit {0})
verify false code = err code
verify true code = ok tt

abbrev pub verify_or_die : Bool → Result (Unit {0})
verify_or_die true = ok tt
verify_or_die false = died

-- `assert`, and ASSERT of src/common/utils.hpp, which is the same, in a build without NDEBUG.
abbrev pub assert : Bool → Result (Unit {0})
assert true = ok tt
assert false = died

-- The call returns, and the only error that it may return is the given one.
abbrev pub FailsWith {ℓ} : {A : Type ℓ} → ErrorCode → Result A → Type 0
FailsWith c (ok a) = Unit {0}
FailsWith c (err e) = e ≡ c
FailsWith c died = ⊥

pub FailsWith-cases {ℓ} :
    {A : Type ℓ} (c : ErrorCode) (r : Result A)
    → FailsWith c r
    → ((a : A) × (r ≡ ok a)) ⊎ (r ≡ err c)
FailsWith-cases c (ok a) h = inl (a, refl)
FailsWith-cases c (err e) h = inr (λ i. err (h i))
FailsWith-cases c died h = absurd h

pub >>=-eq-ok {ℓ κ} :
    {Value : Type ℓ} {Next : Type κ} (first : Result Value) (next : Value → Result Next)
    {out : Next}
    → (first >>= next) ≡ ok out
    → (value : Value) × (first ≡ ok value) × (next value ≡ ok out)
>>=-eq-ok died next e = cc
>>=-eq-ok (err code) next e = cc
>>=-eq-ok (ok value) next e = (value, refl, e)

-- The call does not abort.
pub data Returns {ℓ} {A : Type ℓ} : Result A → Type ℓ where
  returned : (a : A) → Returns (ok a)
  failed : (e : ErrorCode) → Returns (err e)

pub >>=-Returns {ℓ κ} :
    {A : Type ℓ} {B : Type κ} {m : Result A} {f : A → Result B}
    → Returns m
    → ((a : A) → m ≡ ok a → Returns (f a))
    → Returns (m >>= f)
>>=-Returns (returned a) k = k a refl
>>=-Returns (failed e) k = failed e

pub verify-Returns : (b : Bool) (e : ErrorCode) → Returns (verify b e)
verify-Returns true e = returned tt
verify-Returns false e = failed e

pub if-Returns {ℓ} :
    {A : Type ℓ} (b : Bool) {r s : Result A} → Returns r → Returns s → Returns (if b then r else s)
if-Returns true hr hs = hr
if-Returns false hr hs = hs

pub guard-Returns {ℓ} :
    {A : Type ℓ} (b : Bool) (e : ErrorCode) (k : Result A)
    → Returns k
    → Returns (verify b e >>= λ _. k)
guard-Returns true e k h = h
guard-Returns false e k h = failed e

pub >>=-eq {ℓ κ} :
    {A : Type ℓ} {B : Type κ} {m : Result A} (f : A → Result B) {a : A} {r : Result B}
    → m ≡ ok a
    → f a ≡ r
    → (m >>= f) ≡ r
>>=-eq f e h = ap (λ m. m >>= f) e ∙ h

-- The call returns a value.
abbrev pub Yields {ℓ} : {A : Type ℓ} → Result A → Type ℓ
Yields {A = A} r = (a : A) × (r ≡ ok a)

pub >>=-Yields {ℓ κ} :
    {A : Type ℓ} {B : Type κ} {m : Result A} (f : A → Result B)
    → Yields m
    → ((a : A) → Yields (f a))
    → Yields (m >>= f)
>>=-Yields f (a, e) k = ((k a).0, >>=-eq f e (k a).1)

pub >>=-ext {ℓ κ} :
    {A : Type ℓ} {B : Type κ} (m : Result A) (f g : A → Result B)
    → ((a : A) → f a ≡ g a)
    → (m >>= f) ≡ (m >>= g)
>>=-ext (ok a) f g h = h a
>>=-ext (err e) f g h = refl
>>=-ext died f g h = refl

pub >>=-ok {ℓ} : {A : Type ℓ} (m : Result A) → (m >>= λ a. ok a) ≡ m
>>=-ok (ok a) = refl
>>=-ok (err e) = refl
>>=-ok died = refl

-- What holds of a value that the call returns, if it returns one.
abbrev pub Ensures {ℓ κ} : {A : Type ℓ} → (A → Type κ) → Result A → Type κ
Ensures P (ok a) = P a
Ensures P (err e) = Unit
Ensures P died = Unit

pub >>=-Ensures {ℓ κ μ} :
    {A : Type ℓ} {B : Type κ} (P : B → Type μ) (m : Result A) (f : A → Result B)
    → ((a : A) → m ≡ ok a → Ensures P (f a))
    → Ensures P (m >>= f)
>>=-Ensures P (ok a) f k = k a refl
>>=-Ensures P (err e) f k = tt
>>=-Ensures P died f k = tt

pub Ensures-ok {ℓ κ} :
    {A : Type ℓ} (P : A → Type κ) {m : Result A} {a : A} → m ≡ ok a → Ensures P m → P a
Ensures-ok P e h = subst (Ensures P) e h

pub if-Ensures {ℓ κ} :
    {A : Type ℓ} (P : A → Type κ) (b : Bool) (r s : Result A)
    → Ensures P r
    → Ensures P s
    → Ensures P (if b then r else s)
if-Ensures P true r s hr hs = hr
if-Ensures P false r s hr hs = hs

pub guard-Ensures {ℓ κ} :
    {A : Type ℓ} (P : A → Type κ) (b : Bool) (e : ErrorCode) (k : Result A)
    → (b ≡ true → Ensures P k)
    → Ensures P (verify b e >>= λ _. k)
guard-Ensures P true e k h = h refl
guard-Ensures P false e k h = tt
