-- ===== src/AuditLog/Differ.antt =====
-- `DictDiffer` (auditlog/models/auditlog_rule.py).
pub mod Partition
use Prim.Native.String.{String}
use text.Mathlib.Text.{◌==◌ as str_eq}
use others_addons.Base.{
  ℕ, Bool, true, false, not, ◌&&◌, List, [], ◌∷◌, Option, none, some, ◌==◌, has, keep, keys, lookup,
}

-- What a field of a record holds, as far as Python's `==` tells it: a number, where `False` is 0
-- and `True` is 1, a text or another plain value by its text, or the ids of a relation to many
-- records.
pub data Value : Type 0 where
  number : ℕ → Value
  scalar : String → Value
  ids : List ℕ → Value

abbrev pub same_ids : List ℕ → List ℕ → Bool
same_ids [] [] = true
same_ids (a ∷ l) (b ∷ m) = a == b && same_ids l m
same_ids _ _ = false

-- `==` of two values.
abbrev pub same_value : Value → Value → Bool
same_value (number a) (number b) = a == b
same_value (scalar a) (scalar b) = str_eq a b
same_value (ids l) (ids m) = same_ids l m
same_value _ _ = false

-- `False`, the value of a field that is not set.
abbrev pub unset : Value
unset = number 0

-- The values of a record by the names of the fields.
abbrev pub Values : Type 0
Values = List (String × Value)

abbrev pub same_option : Option Value → Option Value → Bool
same_option none none = true
same_option (some a) (some b) = same_value a b
same_option _ _ = false

unfoldable pub intersect : Values → Values → List String
intersect current past = keep (λ k. has k (keys past)) (keys current)

unfoldable pub added : Values → Values → List String
unfolding intersect
added current past = keep (λ k. not (has k (intersect current past))) (keys current)

unfoldable pub removed : Values → Values → List String
unfolding intersect
removed current past = keep (λ k. not (has k (intersect current past))) (keys past)

unfoldable pub changed : Values → Values → List String
unfolding intersect
changed current past =
    keep (λ k. not (same_option (lookup k past) (lookup k current))) (intersect current past)

unfoldable pub unchanged : Values → Values → List String
unfolding intersect
unchanged current past =
    keep (λ k. same_option (lookup k past) (lookup k current)) (intersect current past)
