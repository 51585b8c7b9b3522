-- ===== src/Dataset/Reading.antt =====
-- Reading a parsed set of TLVs in the decoders of src/library/commissioner_impl.cpp.
use ot_commissioner.Common.{
  ℕ, ◌≤◌, ◌≡◌, refl, ap, arith, true, ◌⊎◌, inl, inr, List, length, Option, none, some, Result, ok,
  err, died, bad_format, Returns, returned, Yields,
}
use ot_commissioner.Tlv.Length.{LengthRule, exactly, allows, find_rule, mesh_cop_rules}
use ot_commissioner.Tlv.{Tlv, TlvSet, mesh_cop, scope_rules}
use ot_commissioner.Tlv.Bounds.{is_valid-allows}
use ot_commissioner.Tlv.Parse.{IsTlvSet, Ends}
use ot_commissioner.Dataset.{when_present}

-- The rule of a type holds for its TLV in a set that was parsed.
pub IsTlvSet-allows :
    (set : TlvSet) (type : ℕ) (rule : LengthRule)
    → IsTlvSet mesh_cop set
    → find_rule type mesh_cop_rules ≡ some rule
    → (tlv : Tlv) → set type ≡ some tlv
    → allows rule (length tlv.value) ≡ true
unfolding scope_rules
IsTlvSet-allows set type rule inv e tlv found =
    let (valid, scope, t) = inv type tlv found in is_valid-allows tlv rule valid (rw (scope, t) e)

pub when_present-Yields :
    {D : Type 0} (o : Option Tlv) (read : List ℕ → D → Result D) (d : D)
    → ((tlv : Tlv) → o ≡ some tlv → Yields (read tlv.value d))
    → Yields (when_present o read d)
unfolding when_present
when_present-Yields none read d h = (d, refl)
when_present-Yields (some tlv) read d h = h tlv refl

pub when_present-Returns :
    {D : Type 0} (o : Option Tlv) (read : List ℕ → D → Result D) (d : D)
    → ((value : List ℕ) → Returns (read value d))
    → Returns (when_present o read d)
unfolding when_present
when_present-Returns none read d h = returned d
when_present-Returns (some tlv) read d h = h tlv.value

exactly-le :
    (n k : ℕ)
    → n ≤ k
    → (value : List ℕ) → allows (exactly k) (length value) ≡ true
    → n ≤ length value
unfolding allows
exactly-le n k le value h = ground arith

module _ (set : TlvSet) (inv : IsTlvSet mesh_cop set) where
  pub at_least :
      (type n k : ℕ)
      → n ≤ k
      → find_rule type mesh_cop_rules ≡ some (exactly k)
      → (tlv : Tlv) → set type ≡ some tlv
      → n ≤ length tlv.value
  at_least type n k le e tlv found =
      exactly-le n k le tlv.value (IsTlvSet-allows set type (exactly k) inv e tlv found)

pub Ends-cases :
    (r : Result TlvSet)
    → Ends mesh_cop r
    → ((set : TlvSet) × (r ≡ ok set) × IsTlvSet mesh_cop set) ⊎ (r ≡ err bad_format)
Ends-cases (ok set) h = inl (set, refl, h)
Ends-cases (err e) h = inr (ap err h)
Ends-cases died h = absurd h
