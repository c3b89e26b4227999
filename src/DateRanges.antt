-- ===== src/DateRanges.antt =====
-- Date ranges (date_range/models/date_range.py): `_validate_range` over the table of the ranges.
-- Dates are natural numbers of days.
pub mod Disjoint
pub mod Generator
mod Tests
use Prim.Native.String.{String}
use others_addons.Base.{
  ℕ, Bool, true, false, not, ◌&&◌, List, [], ◌∷◌, Option, none, some, if◌then◌else◌, ◌==◌, leb, ltb,
}

pub record DateRange : Type 0 where
  pub id : ℕ
  pub name : String
  pub type_id : ℕ
  pub company_id : Option ℕ
  pub date_start : ℕ
  pub date_end : ℕ
  pub active : Bool

-- `dt.company_id = %s`: a comparison with `NULL` does not hold.
abbrev pub same_company : Option ℕ → Option ℕ → Bool
same_company (some a) (some b) = a == b
same_company _ _ = false

-- The `WHERE` of the query on the ranges that `this` overlaps; both bounds of a range are in it.
unfoldable pub is_overlap : DateRange → DateRange → Bool
is_overlap this dt =
    leb dt.date_start this.date_end
    && (leb this.date_start dt.date_end
        && (not (dt.id == this.id)
            && (dt.active
                && (same_company dt.company_id this.company_id && dt.type_id == this.type_id))))

unfoldable pub find_overlap : DateRange → List DateRange → Option DateRange
unfolding is_overlap
find_overlap this [] = none
find_overlap this (dt ∷ t) =
    let rest = find_overlap this t in if is_overlap this dt then some dt else rest

-- The `ValidationError` of a range, if any.
pub data Validation : Type 0 where
  valid : Validation
  not_a_range : (name : String) (date_start date_end : ℕ) → Validation
  overlaps : (name other : String) → Validation

abbrev pub found : DateRange → Option DateRange → Validation
found this none = valid
found this (some dt) = overlaps this.name dt.name

unfoldable pub without : ℕ → List DateRange → List DateRange
without id [] = []
without id (dt ∷ t) = let rest = without id t in if dt.id == id then rest else dt ∷ rest

-- An error rolls the transaction back.
abbrev pub settle : List DateRange → List DateRange → Validation → List DateRange × Validation
settle stored t valid = (stored, valid)
settle stored t error = (t, error)

abbrev pub and_then : Validation → Validation → Validation
and_then valid rest = rest
and_then error rest = error

-- The table of the types gives `allow_overlap`.
module _ (allow_overlap : ℕ → Bool) where
  unfoldable pub validate_one : List DateRange → DateRange → Validation
  unfolding find_overlap
  validate_one t this =
      if ltb this.date_end this.date_start
      then not_a_range this.name this.date_start this.date_end
      else if allow_overlap this.type_id
      then valid
      else found this (find_overlap this t)

  -- `for this in self`, which the first error ends.
  unfoldable pub validate_range : List DateRange → List DateRange → Validation
  unfolding validate_one
  validate_range t [] = valid
  validate_range t (this ∷ records) = and_then (validate_one t this) (validate_range t records)

  -- A create or a write of a range. If it writes one of the fields of `@api.constrains`, as a create
  -- does, the row is stored, then validated, and an error takes it back; a write of other fields, also
  -- of `active`, is not validated.
  unfoldable pub save : Bool → DateRange → List DateRange → List DateRange × Validation
  unfolding validate_range without
  save constrained this t =
      let stored = this ∷ without this.id t in
      if constrained then settle stored t (validate_range stored (this ∷ [])) else (stored, valid)
