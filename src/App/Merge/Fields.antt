-- ===== src/App/Merge/Fields.antt =====
-- One field and its flag after the macro SET_IF_PRESENT of src/app/commissioner_app.cpp.
use ot_commissioner.Common.{
  ℕ, zero, suc, ◌^◌, ◌≡◌, refl, sym, subst, ◌∙◌, ap, Bool, true, false, ◌&&◌, ◌||◌, List, [], ◌∷◌,
  map, Option, none, some, has_flag, if◌then◌else◌, same, any_same, has_flag-set_flag,
  has_flag-clear_flag, Bool-cases, inl, inr, or_else,
}
use ot_commissioner.Dataset.Flags.{copy_flag}
use ot_commissioner.App.Merge.{pick, copy_flags, sync_flag, sync_flags}

-- What a dataset says of a field.
abbrev pub present {ℓ} : {A : Type ℓ} → ℕ → ℕ → A → Option A
present flags mask value = if has_flag flags mask then some value else none

same_eq : (i j : ℕ) → same i j ≡ true → i ≡ j
same_eq zero zero e = refl
same_eq zero (suc j) e = cc
same_eq (suc i) zero e = cc
same_eq (suc i) (suc j) e = ap suc (same_eq i j e)

same_self : (i : ℕ) → same i i ≡ true
same_self zero = refl
same_self (suc i) = same_self i

copied : (s b t : Bool) → (s ≡ true → b ≡ true) → (if s then true else t) ≡ (s && b) || t
copied true b t h = rw (h refl) refl
copied false b t h = refl

not_copied : (s b t : Bool) → (s ≡ true → b ≡ false) → t ≡ (s && b) || t
not_copied true b t h = rw (h refl) refl
not_copied false b t h = refl

has_flag-copy_flag :
    (i j flags to : ℕ)
    → has_flag (copy_flag flags (2 ^ j) to) (2 ^ i)
      ≡ (same i j && has_flag flags (2 ^ i)) || has_flag to (2 ^ i)
unfolding copy_flag
has_flag-copy_flag i j flags to = elim (Bool-cases (has_flag flags (2 ^ j))) [
  | inl e ↦ rw e (
      has_flag-set_flag i j to
      ∙ copied (same i j) _ _
          (λ s. subst (λ k. has_flag flags (2 ^ k) ≡ true) (sym (same_eq i j s)) e))
  | inr e ↦ rw e (
      not_copied (same i j) _ _
        (λ s. subst (λ k. has_flag flags (2 ^ k) ≡ false) (sym (same_eq i j s)) e))
]

copied_more : (s any b t : Bool) → (any && b) || ((s && b) || t) ≡ ((s || any) && b) || t
copied_more true true true t = refl
copied_more true false true t = refl
copied_more true true false t = refl
copied_more true false false t = refl
copied_more false any b t = refl

pub has_flag-copy_flags :
    (i : ℕ) (js : List ℕ) (flags to : ℕ)
    → has_flag (copy_flags (map (λ j. 2 ^ j) js) flags to) (2 ^ i)
      ≡ (any_same i js && has_flag flags (2 ^ i)) || has_flag to (2 ^ i)
unfolding copy_flags
has_flag-copy_flags i [] flags to = refl
has_flag-copy_flags i (j ∷ js) flags to =
    has_flag-copy_flags i js flags (copy_flag flags (2 ^ j) to)
    ∙ ap (λ b. (any_same i js && has_flag flags (2 ^ i)) || b) (has_flag-copy_flag i j flags to)
    ∙ copied_more (same i j) (any_same i js) _ _

has_flag-sync_flag :
    (i j flags to : ℕ)
    → has_flag (sync_flag flags (2 ^ j) to) (2 ^ i)
      ≡ (if same i j then has_flag flags (2 ^ i) else has_flag to (2 ^ i))
unfolding sync_flag
has_flag-sync_flag i j flags to = elim (Bool-cases (same i j)) [
  | inl s ↦ rw (sym (same_eq i j s)) (elim (Bool-cases (has_flag flags (2 ^ i))) [
    | inl e ↦ rw e (has_flag-set_flag i i to ∙ rw (same_self i) refl)
    | inr e ↦ rw e (has_flag-clear_flag i i to ∙ rw (same_self i) refl)
  ])
  | inr s ↦ elim (Bool-cases (has_flag flags (2 ^ j))) [
    | inl e ↦ rw e (has_flag-set_flag i j to ∙ rw s refl)
    | inr e ↦ rw e (has_flag-clear_flag i j to ∙ rw s refl)
  ]
]

synced_more :
    (s any b t : Bool) → (if any then b else if s then b else t) ≡ (if s || any then b else t)
synced_more true true b t = refl
synced_more true false b t = refl
synced_more false any b t = refl

pub has_flag-sync_flags :
    (i : ℕ) (js : List ℕ) (flags to : ℕ)
    → has_flag (sync_flags (map (λ j. 2 ^ j) js) flags to) (2 ^ i)
      ≡ (if any_same i js then has_flag flags (2 ^ i) else has_flag to (2 ^ i))
unfolding sync_flags
has_flag-sync_flags i [] flags to = refl
has_flag-sync_flags i (j ∷ js) flags to =
    has_flag-sync_flags i js flags (sync_flag flags (2 ^ j) to)
    ∙ ap (λ b. if any_same i js then has_flag flags (2 ^ i) else b)
        (has_flag-sync_flag i j flags to)
    ∙ synced_more (same i j) (any_same i js) _ _

overridden {ℓ} :
    {A : Type ℓ} (b c : Bool) (from to : A)
    → (if b || c then some (if b then from else to) else none)
      ≡ or_else (if b then some from else none) (if c then some to else none)
overridden true c from to = refl
overridden false true from to = refl
overridden false false from to = refl

-- A field with its flag, after SET_IF_PRESENT.
pub merged_field {ℓ} :
    {A : Type ℓ} (flags old new mask : ℕ) (from to : A)
    → has_flag new mask ≡ has_flag flags mask || has_flag old mask
    → present new mask (pick flags mask from to)
      ≡ or_else (present flags mask from) (present old mask to)
merged_field flags old new mask from to e = rw e (overridden (has_flag flags mask) _ from to)

synced {ℓ} :
    {A : Type ℓ} (b : Bool) (from to : A)
    → (if b then some (if b then from else to) else none) ≡ (if b then some from else none)
synced true from to = refl
synced false from to = refl

pub synced_field {ℓ} :
    {A : Type ℓ} (flags new mask : ℕ) (from to : A)
    → has_flag new mask ≡ has_flag flags mask
    → present new mask (pick flags mask from to) ≡ present flags mask from
synced_field flags new mask from to e = rw e (synced (has_flag flags mask) from to)
