-- ===== src/AuditLog/Differ/Partition.antt =====
-- What the four sets of a `DictDiffer` hold (auditlog/models/auditlog_rule.py).
use Prim.Native.String.{String}
use text.Mathlib.TextEquality.{eq_iff}
use text.Mathlib.TextPositions.{eq_refl}
use others_addons.Base.{
  ℕ, ◌≡◌, refl, ap, true, not, ◌&&◌, List, [], ◌∷◌, arith, ==_iff, has, keys, lookup, has-keep,
}
use others_addons.AuditLog.Differ.{
  Value, number, scalar, ids, same_ids, same_value, Values, same_option, intersect, added, removed,
  changed, unchanged,
}

same_ids-eq : (l m : List ℕ) → same_ids l m ≡ true → l ≡ m
same_ids-eq [] [] h = refl
same_ids-eq [] (b ∷ m) h = absurd (ground (arith, h))
same_ids-eq (a ∷ l) [] h = absurd (ground (arith, h))
same_ids-eq (a ∷ l) (b ∷ m) h =
    let first : a ≡ b = ground (arith, h, ==_iff a b) in
    let rest = same_ids-eq l m (ground (arith, h)) in λ i. first i ∷ rest i

same_ids_refl : (l : List ℕ) → same_ids l l ≡ true
same_ids_refl [] = refl
same_ids_refl (a ∷ l) = ground (arith, same_ids_refl l)

pub same_value-eq : (v w : Value) → same_value v w ≡ true → v ≡ w
same_value-eq (number a) (number b) h = ap number ((==_iff a b).0 h)
same_value-eq (number a) (scalar b) h = absurd (ground (arith, h))
same_value-eq (number a) (ids m) h = absurd (ground (arith, h))
same_value-eq (scalar a) (number b) h = absurd (ground (arith, h))
same_value-eq (scalar a) (scalar b) h = ap scalar ((eq_iff a b).0 h)
same_value-eq (scalar a) (ids m) h = absurd (ground (arith, h))
same_value-eq (ids l) (number b) h = absurd (ground (arith, h))
same_value-eq (ids l) (scalar b) h = absurd (ground (arith, h))
same_value-eq (ids l) (ids m) h = ap ids (same_ids-eq l m h)

pub same_value_refl : (v : Value) → same_value v v ≡ true
same_value_refl (number a) = (==_iff a a).1 refl
same_value_refl (scalar a) = eq_refl a
same_value_refl (ids l) = same_ids_refl l

pub has-changed :
    (k : String) (current past : Values)
    → has k (changed current past) ≡ (
        (has k (keys current) && has k (keys past))
        && not (same_option (lookup k past) (lookup k current)))
unfolding changed
has-changed k current past = ground (
  arith,
  has-keep k (λ j. not (same_option (lookup j past) (lookup j current))) (intersect current past),
  has-keep k (λ j. has j (keys past)) (keys current),
)

pub has-unchanged :
    (k : String) (current past : Values)
    → has k (unchanged current past) ≡ (
        (has k (keys current) && has k (keys past))
        && same_option (lookup k past) (lookup k current))
unfolding unchanged
has-unchanged k current past = ground (
  arith,
  has-keep k (λ j. same_option (lookup j past) (lookup j current)) (intersect current past),
  has-keep k (λ j. has j (keys past)) (keys current),
)

pub has-added :
    (k : String) (current past : Values)
    → has k (added current past) ≡ (has k (keys current) && not (has k (keys past)))
unfolding added
has-added k current past = ground (
  arith,
  has-keep k (λ j. not (has j (intersect current past))) (keys current),
  has-keep k (λ j. has j (keys past)) (keys current),
)

pub has-removed :
    (k : String) (current past : Values)
    → has k (removed current past) ≡ (has k (keys past) && not (has k (keys current)))
unfolding removed
has-removed k current past = ground (
  arith,
  has-keep k (λ j. not (has j (intersect current past))) (keys past),
  has-keep k (λ j. has j (keys past)) (keys current),
)
