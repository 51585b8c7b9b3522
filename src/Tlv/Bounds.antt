-- ===== src/Tlv/Bounds.antt =====
-- What `Tlv::IsValid` of src/library/tlv.cpp implies for the length field of the encoding.
use ot_commissioner.Common.{
  ℕ, ◌^◌, ◌<◌, ◌≡◌, refl, arith, Bool, true, false, ◌&&◌, ◌||◌, List, [], ◌∷◌, Option, some, length,
  ltb, ◌==◌, ◌⊎◌, inl, inr, Option-cases, ap,
}
use ot_commissioner.Tlv.Types
use ot_commissioner.Tlv.Length.{
  LengthRule, exactly, at_most, at_least, below_escape, any, three_or_four, addresses, allows,
  find_rule, thread_rules, mesh_cop_rules, escape_length,
}
use ot_commissioner.Tlv.{
  Tlv, Scope, mesh_cop, thread, mesh_link, is_extended_tlv, is_valid, scope_rules, allowed,
}

-- Rules that keep a length below the escape.
bounded : LengthRule → Bool
bounded (exactly n) = ltb n escape_length
bounded (at_most n) = ltb n escape_length
bounded (at_least n) = false
bounded below_escape = true
bounded any = false
bounded three_or_four = true
bounded addresses = true

bounded_lt : (rule : LengthRule) (n : ℕ) → bounded rule ≡ true → allows rule n ≡ true → n < 255
unfolding bounded allows
bounded_lt (exactly m) n b a = ground arith
bounded_lt (at_most m) n b a = ground arith
bounded_lt (at_least m) n b a = cc
bounded_lt below_escape n b a = ground arith
bounded_lt any n b a = cc
bounded_lt three_or_four n b a = ground arith
bounded_lt addresses n b a = ground arith

-- A row of the tables: the type is a byte, and its length field is wide enough, but for one type.
wide_enough : ℕ → LengthRule → Bool
wide_enough type rule =
    ltb type 256 && (bounded rule || (is_extended_tlv type || type == Types.domain_prefix))

all_rows : (ℕ → LengthRule → Bool) → List (ℕ × LengthRule) → Bool
all_rows p [] = true
all_rows p ((type, rule) ∷ table) = p type rule && all_rows p table

find_rule_sound :
    (p : ℕ → LengthRule → Bool) (type : ℕ) (rule : LengthRule) (table : List (ℕ × LengthRule))
    → all_rows p table ≡ true
    → find_rule type table ≡ some rule
    → p type rule ≡ true
unfolding all_rows find_rule
find_rule_sound p type rule [] h e = cc
find_rule_sound p type rule ((t, r) ∷ table) h e = ground (arith, find_rule_sound p type rule table)

tables_wide : (scope : Scope) → all_rows wide_enough (scope_rules scope) ≡ true
unfolding all_rows wide_enough bounded is_extended_tlv scope_rules thread_rules mesh_cop_rules
tables_wide mesh_cop = refl
tables_wide thread = refl
tables_wide mesh_link = refl

-- The length field of a valid TLV holds its length, unless it is a long Domain Prefix TLV.
abbrev pub LengthFits : Tlv → Type 0
LengthFits tlv =
    (tlv.type < 256)
    × (length tlv.value < 2 ^ 16)
    × ((length tlv.value < 255)
        ⊎ (is_extended_tlv tlv.type ≡ true)
        ⊎ (tlv.type ≡ Types.domain_prefix))

wide_enough-LengthFits :
    (tlv : Tlv) (rule : LengthRule)
    → length tlv.value < 2 ^ 16
    → wide_enough tlv.type rule ≡ true
    → allows rule (length tlv.value) ≡ true
    → LengthFits tlv
unfolding wide_enough
wide_enough-LengthFits tlv rule short wide fits = ground (arith, bounded_lt rule (length tlv.value))

pub is_valid-LengthFits : (tlv : Tlv) → is_valid tlv ≡ true → LengthFits tlv
unfolding is_valid
is_valid-LengthFits tlv h = elim (Option-cases (find_rule tlv.type (scope_rules tlv.scope))) [
  | inl e ↦ ground arith
  | inr (rule, e) ↦
      wide_enough-LengthFits tlv rule (ground arith)
        (find_rule_sound wide_enough tlv.type rule _ (tables_wide tlv.scope) e)
        (ground (arith, ap (λ (o : Option LengthRule). allowed o (length tlv.value)) e))
]

pub is_valid-allows :
    (tlv : Tlv) (rule : LengthRule)
    → is_valid tlv ≡ true
    → find_rule tlv.type (scope_rules tlv.scope) ≡ some rule
    → allows rule (length tlv.value) ≡ true
unfolding is_valid
is_valid-allows tlv rule h e =
    ground (arith, ap (λ (o : Option LengthRule). allowed o (length tlv.value)) e)

pub allows-is_valid :
    (tlv : Tlv) (rule : LengthRule)
    → length tlv.value < 2 ^ 16
    → find_rule tlv.type (scope_rules tlv.scope) ≡ some rule
    → allows rule (length tlv.value) ≡ true
    → is_valid tlv ≡ true
unfolding is_valid
allows-is_valid tlv rule short e h =
    ground (arith, ap (λ (o : Option LengthRule). allowed o (length tlv.value)) e)
