-- ===== src/Steering/Joiners.antt =====
-- `Commissioner::AddJoiner` of src/library/commissioner_impl.cpp, and who is found afterwards.
use ot_commissioner.Common.{
  ℕ, zero, suc, ◌%◌, ◌≡◌, refl, sym, subst, arith, true, false, List, length, All, ok, ◌∙◌,
  replicate, ◌==◌, Bool-cases, inl, inr, Ensures, ==_iff,
}
use ot_commissioner.Bytes.{IsByte}
use ot_commissioner.Steering.Bits.{
  has_bit, set_bit-has_bit, has_bit-set_bit, set_bit-IsByte, length-set_bit,
}
use ot_commissioner.Steering.{
  ccitt, ansi, crc16, set_bit, set_bits, compute_bloom_filter, add_joiner,
}

-- A joiner is let in by steering data in which the two bits of its id are set.
abbrev pub Admits : List ℕ → List ℕ → Type 0
Admits steering_data joiner_id =
    (has_bit steering_data (crc16 ccitt joiner_id % 128) ≡ true)
    × (has_bit steering_data (crc16 ansi joiner_id % 128) ≡ true)

abbrev pub IsSteering : List ℕ → Type 0
IsSteering steering = All IsByte steering × (length steering ≡ 16)

module _ (steering : List ℕ) (is : IsSteering steering) (id : List ℕ) where
  one : List ℕ
  one = set_bit steering (crc16 ccitt id % 128)

  two : List ℕ
  two = set_bit one (crc16 ansi id % 128)

  one-IsSteering : IsSteering one
  unfolding one
  one-IsSteering = (set_bit-IsByte steering _ is.0, length-set_bit steering _ ∙ is.1)

  two-IsSteering : IsSteering two
  unfolding two
  two-IsSteering = (set_bit-IsByte one _ one-IsSteering.0, length-set_bit one _ ∙ one-IsSteering.1)

  two-Admits : Admits two id
  unfolding two one
  two-Admits = (
    has_bit-set_bit one (crc16 ansi id % 128) (crc16 ccitt id % 128) one-IsSteering.0
        (set_bit-has_bit steering (crc16 ccitt id % 128) is.0 (omega (arith, is.1))),
    set_bit-has_bit one (crc16 ansi id % 128) one-IsSteering.0 (omega (arith, one-IsSteering.1)),
  )

  kept : (bit : ℕ) → has_bit steering bit ≡ true → has_bit two bit ≡ true
  unfolding two one
  kept bit e =
      has_bit-set_bit one (crc16 ansi id % 128) bit one-IsSteering.0
        (has_bit-set_bit steering (crc16 ccitt id % 128) bit is.0 e)

  add_joiner-two : add_joiner steering id ≡ ok two
  unfolding add_joiner compute_bloom_filter set_bits two one
  add_joiner-two = rw is.1 (rw is.1 refl)

-- Adding a joiner to steering data of 16 bytes succeeds, with 16 bytes; it admits that joiner, and
-- each joiner that was admitted before.
pub add_joiner-Admits :
    (steering joiner_id other : List ℕ)
    → IsSteering steering
    → Admits steering other
    → (next : List ℕ) × (add_joiner steering joiner_id ≡ ok next)
      × IsSteering next
      × Admits next joiner_id
      × Admits next other
add_joiner-Admits steering joiner_id other is (a, b) = (
  two steering is joiner_id,
  add_joiner-two steering is joiner_id,
  two-IsSteering steering is joiner_id,
  two-Admits steering is joiner_id,
  (
    kept steering is joiner_id (crc16 ccitt other % 128) a,
    kept steering is joiner_id (crc16 ansi other % 128) b,
  ),
)

replicate-IsByte : (n : ℕ) → All IsByte (replicate n 0)
replicate-IsByte zero = tt
replicate-IsByte (suc n) = (omega arith, replicate-IsByte n)

zeros-IsSteering : IsSteering (replicate 16 0)
zeros-IsSteering = (replicate-IsByte 16, refl)

added_to :
    (steering id : List ℕ)
    → IsSteering steering
    → Ensures (λ next. IsSteering next × Admits next id) (add_joiner steering id)
added_to steering id is =
    subst (Ensures (λ next. IsSteering next × Admits next id)) (sym (add_joiner-two steering is id))
      (two-IsSteering steering is id, two-Admits steering is id)

dropped :
    (steering id : List ℕ)
    → (length steering == 16) ≡ false
    → add_joiner (replicate 16 0) id ≡ add_joiner steering id
unfolding add_joiner
dropped steering id e = rw e refl

-- Adding a joiner to any steering data of bytes leaves 16 bytes that admit that joiner: data of another
-- length is dropped.
pub add_joiner-admitted :
    (steering id : List ℕ)
    → All IsByte steering
    → Ensures (λ next. IsSteering next × Admits next id) (add_joiner steering id)
add_joiner-admitted steering id bytes = elim (Bool-cases (length steering == 16)) [
  | inl e ↦ added_to steering id (bytes, (==_iff (length steering) 16).0 e)
  | inr e ↦
      subst (Ensures (λ next. IsSteering next × Admits next id)) (dropped steering id e)
        (added_to (replicate 16 0) id zeros-IsSteering)
]
