-- ===== src/Base/Dicts.antt =====
-- Dictionaries with texts as keys: association lists, whose first entry of a key counts.
use Prim.Native.String.{String}
use text.Mathlib.Text.{◌==◌ as str_eq}
use mathlib.Core.Path.{◌≡◌, refl, ap}
use mathlib.Core.Bool.{Bool, true, false, ◌||◌, ◌&&◌}
use mathlib.Core.Option.{Option, none, some}
use mathlib.Core.List.{List, [], ◌∷◌}
use mathlib.Core.Logic.{◌⊎◌, inl, inr}
use text.Mathlib.TextEquality.{eq_iff}
use native.Mathlib.Omega.{arith}
use others_addons.Base.Tests.{if◌then◌else◌, Bool-cases}

-- `name in names`
unfoldable pub has : String → List String → Bool
has k [] = false
has k (j ∷ names) = str_eq k j || has k names

-- A list comprehension with a test.
unfoldable pub keep : (String → Bool) → List String → List String
keep test [] = []
keep test (k ∷ names) = let rest = keep test names in if test k then k ∷ rest else rest

pub has-keep :
    (k : String) (test : String → Bool) (names : List String)
    → has k (keep test names) ≡ (has k names && test k)
unfolding has keep
has-keep k test [] = refl
has-keep k test (j ∷ names) = elim (Bool-cases (str_eq k j)) [
  | inl same ↦
      let e : k ≡ j = (eq_iff k j).0 same in ground (arith, has-keep k test names, ap test e, same)
  | inr other ↦ ground (arith, has-keep k test names, other)
]

module _ {V : Type 0} where
  abbrev pub keys : List (String × V) → List String
  keys [] = []
  keys ((k, v) ∷ d) = k ∷ keys d

  unfoldable pub lookup : String → List (String × V) → Option V
  lookup k [] = none
  lookup k ((j, v) ∷ d) = let rest = lookup k d in if str_eq k j then some v else rest

  pub has-keys :
      (k : String) (d : List (String × V))
      → ((has k (keys d) ≡ true) × (v : V) × (lookup k d ≡ some v))
        ⊎ ((has k (keys d) ≡ false) × (lookup k d ≡ none))
  unfolding has lookup
  has-keys k [] = inr (refl, refl)
  has-keys k ((j, v) ∷ d) = elim (Bool-cases (str_eq k j)) [
    | inl same ↦ inl (rw same refl, v, rw same refl)
    | inr other ↦ elim (has-keys k d) [
      | inl (h, w, e) ↦ inl (rw other h, w, rw other e)
      | inr (h, e) ↦ inr (rw other h, rw other e)
    ]
  ]
