-- ===== src/Steering/Bits.antt =====
-- The bits of a byte array, as SetBit of src/library/openthread/bloom_filter.cpp numbers them.
use ot_commissioner.Common.{
  ℕ, zero, suc, ◌-◌, ◌*◌, ◌/◌, ◌%◌, ◌^◌, ◌<◌, ◌≡◌, refl, arith, Bool, true, false, ◌&&◌, ◌||◌, not,
  List, [], ◌∷◌, length, All, ltb, ltb→lt, has_flag, set_flag, ap,
}
use ot_commissioner.Bytes.{IsByte}
use ot_commissioner.Steering.{or_at, set_bit}

-- A test of all numbers below a bound.
each : ℕ → (ℕ → Bool) → Bool
each zero test = true
each (suc n) test = each n test && test n

each_sound : (n : ℕ) (test : ℕ → Bool) (k : ℕ) → each n test ≡ true → k < n → test k ≡ true
unfolding each
each_sound zero test k h lt = absurd (omega arith)
each_sound (suc n) test k h lt = ground (arith, each_sound n test k)

-- What setting the bit j of a byte does to it and to its bit i.
byte_test : ℕ → ℕ → ℕ → Bool
byte_test x j i =
    ltb (set_flag x (2 ^ j)) 256
    && (has_flag (set_flag x (2 ^ j)) (2 ^ j)
        && (not (has_flag x (2 ^ i)) || has_flag (set_flag x (2 ^ j)) (2 ^ i)))

byte_table : each 256 (λ x. each 8 (λ j. each 8 (byte_test x j))) ≡ true
unfolding each byte_test
byte_table = refl

byte_fact : (x j i : ℕ) → x < 256 → j < 8 → i < 8 → byte_test x j i ≡ true
byte_fact x j i hx hj hi =
    each_sound 8 (byte_test x j) i
      (each_sound 8 (λ j. each 8 (byte_test x j)) j
        (each_sound 256 (λ x. each 8 (λ j. each 8 (byte_test x j))) x byte_table hx) hj)
      hi

and_split : (a b : Bool) → (a && b) ≡ true → (a ≡ true) × (b ≡ true)
and_split true b h = (refl, h)
and_split false b h = cc

or_false : (a b : Bool) → (not a || b) ≡ true → a ≡ true → b ≡ true
or_false true b h e = h
or_false false b h e = cc

in_range : (x j : ℕ) → x < 256 → j < 8 → set_flag x (2 ^ j) < 256
unfolding byte_test
in_range x j hx hj = ltb→lt _ _ (and_split _ _ (byte_fact x j j hx hj hj)).0

now_set : (x j : ℕ) → x < 256 → j < 8 → has_flag (set_flag x (2 ^ j)) (2 ^ j) ≡ true
unfolding byte_test
now_set x j hx hj = (and_split _ _ (and_split _ _ (byte_fact x j j hx hj hj)).1).0

still_set :
    (x j i : ℕ)
    → x < 256
    → j < 8
    → i < 8
    → has_flag x (2 ^ i) ≡ true
    → has_flag (set_flag x (2 ^ j)) (2 ^ i) ≡ true
unfolding byte_test
still_set x j i hx hj hi e =
    or_false _ _ (and_split _ _ (and_split _ _ (byte_fact x j i hx hj hi)).1).1 e

-- The byte at an index; nothing is set behind the end.
unfoldable pub byte_at : ℕ → List ℕ → ℕ
byte_at index [] = 0
byte_at zero (byte ∷ bytes) = byte
byte_at (suc index) (byte ∷ bytes) = byte_at index bytes

unfoldable pub has_bit : List ℕ → ℕ → Bool
has_bit out bit = has_flag (byte_at (length out - 1 - bit / 8) out) (2 ^ (bit % 8))

pub length-or_at :
    (index mask : ℕ) (bytes : List ℕ) → length (or_at index mask bytes) ≡ length bytes
unfolding or_at
length-or_at index mask [] = refl
length-or_at zero mask (byte ∷ bytes) = refl
length-or_at (suc index) mask (byte ∷ bytes) = ap (λ (n : ℕ). suc n) (length-or_at index mask bytes)

pub or_at-IsByte :
    (index j : ℕ) (bytes : List ℕ)
    → j < 8
    → All IsByte bytes
    → All IsByte (or_at index (2 ^ j) bytes)
unfolding or_at
or_at-IsByte index j [] h all = tt
or_at-IsByte zero j (byte ∷ bytes) h (hb, all) = (in_range byte j hb h, all)
or_at-IsByte (suc index) j (byte ∷ bytes) h (hb, all) = (hb, or_at-IsByte index j bytes h all)

or_at-set :
    (index j : ℕ) (bytes : List ℕ)
    → j < 8
    → All IsByte bytes
    → index < length bytes
    → has_flag (byte_at index (or_at index (2 ^ j) bytes)) (2 ^ j) ≡ true
unfolding or_at byte_at
or_at-set index j [] h all lt = absurd (omega arith)
or_at-set zero j (byte ∷ bytes) h (hb, all) lt = now_set byte j hb h
or_at-set (suc index) j (byte ∷ bytes) h (hb, all) lt = or_at-set index j bytes h all (omega arith)

or_at-kept :
    (index j k i : ℕ) (bytes : List ℕ)
    → j < 8
    → i < 8
    → All IsByte bytes
    → has_flag (byte_at k bytes) (2 ^ i) ≡ true
    → has_flag (byte_at k (or_at index (2 ^ j) bytes)) (2 ^ i) ≡ true
unfolding or_at byte_at
or_at-kept index j k i [] hj hi all e = e
or_at-kept zero j zero i (byte ∷ bytes) hj hi (hb, all) e = still_set byte j i hb hj hi e
or_at-kept zero j (suc k) i (byte ∷ bytes) hj hi all e = e
or_at-kept (suc index) j zero i (byte ∷ bytes) hj hi all e = e
or_at-kept (suc index) j (suc k) i (byte ∷ bytes) hj hi (hb, all) e =
    or_at-kept index j k i bytes hj hi all e

pub set_bit-has_bit :
    (out : List ℕ) (bit : ℕ)
    → All IsByte out
    → bit < length out * 8
    → has_bit (set_bit out bit) bit ≡ true
unfolding has_bit set_bit
set_bit-has_bit out bit all lt =
    rw (length-or_at (length out - 1 - bit / 8) (2 ^ (bit % 8)) out)
      (or_at-set (length out - 1 - bit / 8) (bit % 8) out (omega arith) all (omega arith))

pub has_bit-set_bit :
    (out : List ℕ) (bit other : ℕ)
    → All IsByte out
    → has_bit out other ≡ true
    → has_bit (set_bit out bit) other ≡ true
unfolding has_bit set_bit
has_bit-set_bit out bit other all e =
    rw (length-or_at (length out - 1 - bit / 8) (2 ^ (bit % 8)) out) (
      or_at-kept (length out - 1 - bit / 8) (bit % 8) (length out - 1 - other / 8) (other % 8) out
        (omega arith) (omega arith) all e)

pub set_bit-IsByte : (out : List ℕ) (bit : ℕ) → All IsByte out → All IsByte (set_bit out bit)
unfolding set_bit
set_bit-IsByte out bit all = or_at-IsByte _ (bit % 8) out (omega arith) all

pub length-set_bit : (out : List ℕ) (bit : ℕ) → length (set_bit out bit) ≡ length out
unfolding set_bit
length-set_bit out bit = length-or_at _ _ out
