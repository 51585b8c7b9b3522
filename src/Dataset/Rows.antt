-- ===== src/Dataset/Rows.antt =====
-- A dataset as rows, one for each field of src/library/commissioner_impl.cpp's encoders: whether the
-- field is present, its TLV type and its value.
use ot_commissioner.Common.{
  ℕ, ◌^◌, ◌<◌, ◌≡◌, refl, sym, ◌∙◌, ap, Bool, true, false, ◌&&◌, List, [], ◌∷◌, ◌++◌, length, All,
  Option, none, some, ◌==◌, if◌then◌else◌, Bool-cases, inl, inr, Result, ok, err, died, ◌>>=◌,
  >>=-ext, >>=-ok,
}
use ot_commissioner.Tlv.Types
use ot_commissioner.Tlv.Length.{LengthRule, allows, find_rule, mesh_cop_rules}
use ot_commissioner.Tlv.Bounds.{allows-is_valid}
use ot_commissioner.Tlv.{
  Tlv, TlvSet, mesh_cop, scope_rules, no_tlvs, is_valid, insert_tlv, get_tlv_set, empty_tlv,
}
use ot_commissioner.Tlv.Message.{
  append_tlv, append_tlvs, insert_all, IsSendable, get_tlv_set-append_tlvs,
}
use ot_commissioner.Dataset.{when_present}

abbrev pub Row : Type 0
Row = Bool × ℕ × List ℕ

unfoldable pub append_rows : List ℕ → List Row → Result (List ℕ)
append_rows payload [] = ok payload
append_rows payload ((present, type, value) ∷ rows) = do
  next ← if present then append_tlv payload (empty_tlv type value) else ok payload
  append_rows next rows

-- The same with nothing behind the last row, as the encoders end.
unfoldable pub append_chain : List ℕ → Row → List Row → Result (List ℕ)
append_chain payload (present, type, value) [] =
    if present then append_tlv payload (empty_tlv type value) else ok payload
append_chain payload (present, type, value) (row ∷ rows) = do
  next ← if present then append_tlv payload (empty_tlv type value) else ok payload
  append_chain next row rows

pub append_chain-append_rows :
    (payload : List ℕ) (row : Row) (rows : List Row)
    → append_chain payload row rows ≡ append_rows payload (row ∷ rows)
unfolding append_chain append_rows
append_chain-append_rows payload (present, type, value) [] =
    sym (>>=-ok (if present then append_tlv payload (empty_tlv type value) else ok payload))
append_chain-append_rows payload (present, type, value) (row ∷ rows) =
    >>=-ext (if present then append_tlv payload (empty_tlv type value) else ok payload) _ _
      (λ next. append_chain-append_rows next row rows)

row_tlvs : List Row → List Tlv
row_tlvs [] = []
row_tlvs ((present, type, value) ∷ rows) =
    if present then empty_tlv type value ∷ row_tlvs rows else row_tlvs rows

unfoldable pub insert_rows : TlvSet → List Row → TlvSet
insert_rows set [] = set
insert_rows set ((present, type, value) ∷ rows) =
    insert_rows (λ t. if t == type && present then some (empty_tlv type value) else set t) rows

-- What a row needs to be written and read back.
abbrev pub IsRow : Row → Type 0
IsRow (present, type, value) =
    present ≡ true
    → (is_valid (empty_tlv type value) ≡ true) × (type ≡ Types.domain_prefix → length value < 255)

append_rows-append_tlvs :
    (payload : List ℕ) (rows : List Row)
    → append_rows payload rows ≡ append_tlvs payload (row_tlvs rows)
unfolding append_rows row_tlvs append_tlvs
append_rows-append_tlvs payload [] = refl
append_rows-append_tlvs payload ((true, type, value) ∷ rows) =
    >>=-ext (append_tlv payload (empty_tlv type value)) _ _
      (λ next. append_rows-append_tlvs next rows)
append_rows-append_tlvs payload ((false, type, value) ∷ rows) = append_rows-append_tlvs payload rows

row_tlvs-IsSendable : (rows : List Row) → All IsRow rows → All (IsSendable mesh_cop) (row_tlvs rows)
unfolding row_tlvs
row_tlvs-IsSendable [] h = tt
row_tlvs-IsSendable ((true, type, value) ∷ rows) (one, h) =
    ((refl, (one refl).0, (one refl).1), row_tlvs-IsSendable rows h)
row_tlvs-IsSendable ((false, type, value) ∷ rows) (one, h) = row_tlvs-IsSendable rows h

insert_one :
    (set : TlvSet) (present : Bool) (type : ℕ) (value : List ℕ) (t : ℕ)
    → (if present then insert_tlv (empty_tlv type value) set else set) t
      ≡ (if t == type && present then some (empty_tlv type value) else set t)
unfolding insert_tlv
insert_one set true type value t = elim (Bool-cases (t == type)) [
  | inl e ↦ rw e refl
  | inr e ↦ rw e refl
]
insert_one set false type value t = elim (Bool-cases (t == type)) [
  | inl e ↦ rw e refl
  | inr e ↦ rw e refl
]

insert_all-row_tlvs :
    (rows : List Row) (set : TlvSet) → insert_all set (row_tlvs rows) ≡ insert_rows set rows
unfolding insert_all row_tlvs insert_rows
insert_all-row_tlvs [] set = refl
insert_all-row_tlvs ((true, type, value) ∷ rows) set =
    ap (λ (s : TlvSet). insert_all s (row_tlvs rows)) (λ i t. insert_one set true type value t i)
    ∙ insert_all-row_tlvs rows _
insert_all-row_tlvs ((false, type, value) ∷ rows) set =
    ap (λ (s : TlvSet). insert_all s (row_tlvs rows)) (λ i t. insert_one set false type value t i)
    ∙ insert_all-row_tlvs rows _

pub get_tlv_set-append_rows :
    (rows : List Row)
    → All IsRow rows
    → (payload : List ℕ) × (append_rows [] rows ≡ ok payload)
      × (get_tlv_set mesh_cop no_tlvs payload ≡ ok (insert_rows no_tlvs rows))
get_tlv_set-append_rows rows h =
    let (payload, written, parsed) =
      get_tlv_set-append_tlvs mesh_cop no_tlvs (row_tlvs rows) (row_tlvs-IsSendable rows h) in
    (
      payload,
      append_rows-append_tlvs [] rows ∙ written,
      parsed ∙ ap ok (insert_all-row_tlvs rows no_tlvs),
    )

bind_assoc :
    {A B C : Type 0} (m : Result A) (f : A → Result B) (g : B → Result C) (k : A → Result C)
    → ((a : A) → k a ≡ (f a >>= g))
    → (m >>= k) ≡ ((m >>= f) >>= g)
bind_assoc (ok a) f g k h = h a
bind_assoc (err e) f g k h = refl
bind_assoc died f g k h = refl

pub append_rows-append :
    (payload : List ℕ) (rows more : List Row)
    → append_rows payload (rows ++ more)
      ≡ (append_rows payload rows >>= λ next. append_rows next more)
unfolding append_rows
append_rows-append payload [] more = refl
append_rows-append payload ((true, type, value) ∷ rows) more =
    bind_assoc (append_tlv payload (empty_tlv type value)) _ _ _
      (λ next. append_rows-append next rows more)
append_rows-append payload ((false, type, value) ∷ rows) more = append_rows-append payload rows more

-- The block for a field that is read from a set of rows.
pub when_present-eq :
    {D : Type 0} (present : Bool) (type : ℕ) (value : List ℕ) (read : List ℕ → D → Result D)
    (d d' : D)
    → (present ≡ true → read value d ≡ ok d')
    → when_present (if present then some (empty_tlv type value) else none) read d
      ≡ ok (if present then d' else d)
unfolding when_present
when_present-eq true type value read d d' h = h refl
when_present-eq false type value read d d' h = refl

pub row-is_valid :
    (type : ℕ) (rule : LengthRule) (value : List ℕ)
    → length value < 2 ^ 16
    → find_rule type mesh_cop_rules ≡ some rule
    → allows rule (length value) ≡ true
    → is_valid (empty_tlv type value) ≡ true
unfolding scope_rules
row-is_valid type rule value short e h = allows-is_valid (empty_tlv type value) rule short e h

-- The set holds the TLV of a row, if the row is present.
abbrev pub Holds : TlvSet → Row → Type 0
Holds set (present, type, value) =
    set type ≡ (if present then some (empty_tlv type value) else none)

abbrev pub HoldsAll : TlvSet → List Row → Type 0
HoldsAll set rows = All (Holds set) rows

pub found-eq :
    {D : Type 0} (set : TlvSet) (type : ℕ) (read : List ℕ → D → Result D) (d : D) {o : Option Tlv}
    {d' : D}
    → set type ≡ o
    → when_present o read d ≡ ok d'
    → when_present (set type) read d ≡ ok d'
found-eq set type read d e h = ap (λ o. when_present o read d) e ∙ h

pub All-append :
    {A : Type 0} (P : A → Type 0) (xs ys : List A) → All P xs → All P ys → All P (xs ++ ys)
All-append P [] ys hx hy = hy
All-append P (x ∷ xs) ys (h, hx) hy = (h, All-append P xs ys hx hy)
