-- ===== src/Common/Bits.antt =====
-- Which flags of a word are set after `x | mask` and `x & ~mask`, for masks of one bit.
use Prim.Native.Nat.{ℕ, zero, suc, ◌+◌, ◌-◌, ◌*◌, ◌/◌, ◌^◌, ◌≤◌}
use mathlib.Core.Path.{◌≡◌, refl}
use mathlib.Core.Bool.{Bool, true, false, ◌||◌}
use mathlib.Core.List.{List, [], ◌∷◌}
use native.Mathlib.Omega.{arith}
use native.Mathlib.Nat.{div-div-eq-div-mul, div-eq_of_lt, pow-succ'}
use native.Mathlib.Decide.{dec_lt}
use ot_commissioner.Common.Tests.{if◌then◌else◌}
use ot_commissioner.Common.Flags.{has_flag, set_flag, clear_flag}

-- Whether two numbers of bits are the same, and whether one is in a list.
abbrev pub same : ℕ → ℕ → Bool
same zero zero = true
same zero (suc j) = false
same (suc i) zero = false
same (suc i) (suc j) = same i j

abbrev pub any_same : ℕ → List ℕ → Bool
any_same i [] = false
any_same i (j ∷ js) = same i j || any_same i js

has_flag-suc : (x i : ℕ) → has_flag x (2 ^ suc i) ≡ has_flag (x / 2) (2 ^ i)
has_flag-suc x i = rw (pow-succ' 2 i, ← div-div-eq-div-mul x 2 (2 ^ i)) refl

half_added :
    (b : Bool) (x y : ℕ) → (if b then x else x + 2 * y) / 2 ≡ (if b then x / 2 else x / 2 + y)
half_added true x y = refl
half_added false x y = omega arith

half_removed :
    (b : Bool) (x y : ℕ) → (if b then x - 2 * y else x) / 2 ≡ (if b then x / 2 - y else x / 2)
half_removed true x y = omega arith
half_removed false x y = refl

set_flag-suc : (x i : ℕ) → set_flag x (2 ^ suc i) / 2 ≡ set_flag (x / 2) (2 ^ i)
set_flag-suc x i =
    rw (has_flag-suc x i, pow-succ' 2 i) (half_added (has_flag (x / 2) (2 ^ i)) x (2 ^ i))

clear_flag-suc : (x i : ℕ) → clear_flag x (2 ^ suc i) / 2 ≡ clear_flag (x / 2) (2 ^ i)
clear_flag-suc x i =
    rw (has_flag-suc x i, pow-succ' 2 i) (half_removed (has_flag (x / 2) (2 ^ i)) x (2 ^ i))

low_added : (b : Bool) (x y : ℕ) → has_flag (if b then x else x + 2 * y) 1 ≡ has_flag x 1
low_added true x y = refl
low_added false x y = ground arith

holds_mask : (x y : ℕ) → has_flag x y ≡ true → y ≤ x
holds_mask x y e = elim (dec_lt x y) [
  | yes lt ↦ ground (arith, div-eq_of_lt lt)
  | no le ↦ omega arith
]

low_removed :
    (b : Bool) (x y : ℕ)
    → (b ≡ true → 2 * y ≤ x)
    → has_flag (if b then x - 2 * y else x) 1 ≡ has_flag x 1
low_removed true x y le = let h = le refl in ground arith
low_removed false x y le = refl

half_even : (x : ℕ) → set_flag x 1 / 2 ≡ x / 2
half_even x = ground arith

half_cleared : (x : ℕ) → clear_flag x 1 / 2 ≡ x / 2
half_cleared x = ground arith

pub has_flag-set_flag :
    (i j x : ℕ)
    → has_flag (set_flag x (2 ^ j)) (2 ^ i) ≡ (if same i j then true else has_flag x (2 ^ i))
has_flag-set_flag zero zero x = ground arith
has_flag-set_flag zero (suc j) x =
    rw (has_flag-suc x j, pow-succ' 2 j) (low_added (has_flag (x / 2) (2 ^ j)) x (2 ^ j))
has_flag-set_flag (suc i) zero x =
    rw (has_flag-suc (set_flag x 1) i, has_flag-suc x i, half_even x) refl
has_flag-set_flag (suc i) (suc j) x =
    rw (has_flag-suc (set_flag x (2 ^ suc j)) i, has_flag-suc x i, set_flag-suc x j)
      (has_flag-set_flag i j (x / 2))

pub has_flag-clear_flag :
    (i j x : ℕ)
    → has_flag (clear_flag x (2 ^ j)) (2 ^ i) ≡ (if same i j then false else has_flag x (2 ^ i))
has_flag-clear_flag zero zero x = ground arith
has_flag-clear_flag zero (suc j) x =
    rw (pow-succ' 2 j) (low_removed (has_flag x (2 * 2 ^ j)) x (2 ^ j) (holds_mask x (2 * 2 ^ j)))
has_flag-clear_flag (suc i) zero x =
    rw (has_flag-suc (clear_flag x 1) i, has_flag-suc x i, half_cleared x) refl
has_flag-clear_flag (suc i) (suc j) x =
    rw (has_flag-suc (clear_flag x (2 ^ suc j)) i, has_flag-suc x i, clear_flag-suc x j)
      (has_flag-clear_flag i j (x / 2))
