-- ===== src/Base/Sets.antt =====
-- Python sets of objects: lists of object references, without repetition.
use Prim.Native.Nat.{ℕ, ◌+◌, ◌≤◌}
use mathlib.Core.Path.{◌≡◌, refl}
use mathlib.Core.Bool.{Bool, true, false, not, ◌&&◌, ◌||◌}
use mathlib.Core.List.{List, [], ◌∷◌, ◌++◌}
use native.Mathlib.Omega.{arith}
use others_addons.Base.Tests.{◌==◌, ==_iff, if◌then◌else◌}
use others_addons.Base.Lists.{length}

-- `x in s`
unfoldable pub contains : ℕ → List ℕ → Bool
contains x [] = false
contains x (y ∷ s) = x == y || contains x s

-- `s.discard(x)`
unfoldable pub discard : ℕ → List ℕ → List ℕ
discard x [] = []
discard x (y ∷ s) = let rest = discard x s in if x == y then rest else y ∷ rest

-- `s.add(x)`
unfoldable pub add : ℕ → List ℕ → List ℕ
add x s = if contains x s then s else x ∷ s

-- `s - t`
unfoldable pub difference : List ℕ → List ℕ → List ℕ
difference s [] = s
difference s (x ∷ t) = difference (discard x s) t

abbrev pub IsUnique : List ℕ → Type 0
IsUnique [] = Unit {0}
IsUnique (x ∷ s) = (contains x s ≡ false) × IsUnique s

abbrev pub IsSubset : List ℕ → List ℕ → Type 0
IsSubset s t = (x : ℕ) → contains x s ≡ true → contains x t ≡ true

pub contains-discard :
    (x y : ℕ) (s : List ℕ) → contains x (discard y s) ≡ (not (x == y) && contains x s)
unfolding contains discard
contains-discard x y [] = ground arith
contains-discard x y (z ∷ s) = ground (arith, contains-discard x y s)

pub contains-add : (x y : ℕ) (s : List ℕ) → contains x (add y s) ≡ (x == y || contains x s)
unfolding contains add
contains-add x y s = ground arith

pub contains-difference :
    (x : ℕ) (s t : List ℕ) → contains x (difference s t) ≡ (contains x s && not (contains x t))
unfolding contains difference
contains-difference x s [] = ground arith
contains-difference x s (y ∷ t) =
    ground (arith, contains-difference x (discard y s) t, contains-discard x y s)

pub discard-IsUnique : (x : ℕ) (s : List ℕ) → IsUnique s → IsUnique (discard x s)
unfolding discard
discard-IsUnique x [] u = tt
discard-IsUnique x (y ∷ s) u = ground (arith, discard-IsUnique x s u.1, contains-discard y x s)

pub add-IsUnique : (x : ℕ) (s : List ℕ) → IsUnique s → IsUnique (add x s)
unfolding add
add-IsUnique x s u = ground arith

pub discard_absent : (x : ℕ) (s : List ℕ) → contains x s ≡ false → discard x s ≡ s
unfolding contains discard
discard_absent x [] h = refl
discard_absent x (y ∷ s) h = ground (arith, discard_absent x s)

pub length-discard :
    (x : ℕ) (s : List ℕ) → IsUnique s → contains x s ≡ true → length s ≡ length (discard x s) + 1
unfolding contains discard
length-discard x [] u h = ground arith
length-discard x (y ∷ s) u h =
    ground (arith, length-discard x s u.1, discard_absent x s, ==_iff x y)

pub length-discard-le : (x : ℕ) (s : List ℕ) → length (discard x s) ≤ length s
unfolding discard
length-discard-le x [] = omega arith
length-discard-le x (y ∷ s) = ground (arith, length-discard-le x s)

IsSubset-tail :
    (x : ℕ) (s t : List ℕ) → contains x t ≡ false → IsSubset (x ∷ t) s → IsSubset t (discard x s)
unfolding contains
IsSubset-tail x s t fresh h y m = ground (arith, contains-discard y x s, h y, ==_iff y x)

contains_head : (x : ℕ) (t : List ℕ) → contains x (x ∷ t) ≡ true
unfolding contains
contains_head x t = ground arith

-- Removing a subset takes away as many elements as the subset has.
pub length-difference :
    (s t : List ℕ)
    → IsUnique s
    → IsUnique t
    → IsSubset t s
    → length s ≡ length (difference s t) + length t
unfolding difference
length-difference s [] us ut h = omega arith
length-difference s (x ∷ t) us ut h = omega (
  arith,
  length-discard x s us (h x (contains_head x t)),
  length-difference (discard x s) t (discard-IsUnique x s us) ut.1 (IsSubset-tail x s t ut.0 h),
)

pub contains_none : (s : List ℕ) (x : ℕ) → length s ≤ 0 → contains x s ≡ false
unfolding contains
contains_none [] x h = refl
contains_none (y ∷ s) x h = absurd (omega arith)

pub contains-append : (x : ℕ) (s t : List ℕ) → contains x (s ++ t) ≡ (contains x s || contains x t)
unfolding contains
contains-append x [] t = refl
contains-append x (y ∷ s) t = ground (arith, contains-append x s t)

pub append-IsUnique :
    (s t : List ℕ)
    → IsUnique s
    → IsUnique t
    → ((x : ℕ) → contains x s ≡ true → contains x t ≡ false)
    → IsUnique (s ++ t)
unfolding contains
append-IsUnique [] t us ut h = ut
append-IsUnique (x ∷ s) t us ut h = (
  ground (arith, us.0, contains-append x s t, h x, ==_iff x x),
  append-IsUnique s t us.1 ut (λ y m. h y (ground (arith, m))),
)
