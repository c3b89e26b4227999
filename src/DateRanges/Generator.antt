-- ===== src/DateRanges/Generator.antt =====
-- The generator of date ranges (date_range/wizard/date_range_generator.py). The names of the ranges
-- are left out.
use others_addons.Base.{
  ℕ, ◌+◌, ◌-◌, ◌≤◌, ◌<◌, ◌≡◌, refl, sym, ap, subst, ◌∙◌, Bool, List, [], ◌∷◌, ◌++◌, map, Option,
  none, some, arith, if◌then◌else◌, ◌==◌, ◌⊎◌, inl, inr,
}

-- `until` or `count` of `rrule`.
pub data Limit : Type 0 where
  until : ℕ → Limit
  count : ℕ → Limit

pub data Intervals : Type 0 where
  dates : List ℕ → Intervals
  no_limit : Intervals
  no_ranges : Intervals
  index_error : Intervals

unfoldable pub last : List ℕ → Option ℕ
last [] = none
last (x ∷ xs) = let rest = last xs in elim xs [ [] ↦ some x | y ∷ ys ↦ rest ]

-- `date_end` if there is one, or `count` if it is not 0.
abbrev pub limit_of : Option ℕ → ℕ → Option Limit
limit_of (some date_end) n = some (until date_end)
limit_of none n = if n == 0 then none else some (count n)

-- `rrule` with the unit and the duration of the wizard: the dates from a start on.
module _ (rrule : ℕ → Limit → List ℕ) where
  -- The dates and the start of one more interval.
  unfoldable pub with_end : List ℕ → Intervals
  unfolding last
  with_end vals = elim (last vals) [
    | none ↦ no_ranges
    | some start ↦ elim (last (rrule start (count 2))) [
      | none ↦ index_error
      | some next ↦ dates (vals ++ next ∷ [])
    ]
  ]

  unfoldable pub generate_intervals : ℕ → Option ℕ → ℕ → Bool → Intervals
  unfolding with_end
  generate_intervals date_start date_end n batch = elim (limit_of date_end n) [
    | none ↦ if batch then dates [] else no_limit
    | some limit ↦ with_end (rrule date_start limit)
  ]

-- Range limits are inclusive.
unfoldable pub ranges : List ℕ → List (ℕ × ℕ)
ranges [] = []
ranges (start ∷ vals) =
    let rest = ranges vals in elim vals [ [] ↦ [] | next ∷ _ ↦ (start, next - 1) ∷ rest ]

-- Every range goes from its start to its end, and the next starts on the day after.
abbrev pub Tiles : List (ℕ × ℕ) → Type 0
Tiles [] = Unit {0}
Tiles (r ∷ []) = r.0 ≤ r.1
Tiles (r ∷ s ∷ rest) = (r.0 ≤ r.1) × (r.1 + 1 ≡ s.0) × Tiles (s ∷ rest)

abbrev pub IsIncreasing : List ℕ → Type 0
IsIncreasing [] = Unit {0}
IsIncreasing (a ∷ []) = Unit {0}
IsIncreasing (a ∷ b ∷ rest) = (a < b) × IsIncreasing (b ∷ rest)

ranges-Tiles : (vals : List ℕ) → IsIncreasing vals → Tiles (ranges vals)
unfolding ranges
ranges-Tiles [] h = tt
ranges-Tiles (a ∷ []) h = tt
ranges-Tiles (a ∷ b ∷ []) h = omega (arith, h.0)
ranges-Tiles (a ∷ b ∷ c ∷ rest) h =
    (omega (arith, h.0), omega (arith, h.0), ranges-Tiles (b ∷ c ∷ rest) h.1)

starts-ranges :
    (vals : List ℕ) (next : ℕ) → map (λ (r : ℕ × ℕ). r.0) (ranges (vals ++ next ∷ [])) ≡ vals
unfolding ranges
starts-ranges [] next = refl
starts-ranges (a ∷ []) next = refl
starts-ranges (a ∷ b ∷ rest) next = ap (λ l. a ∷ l) (starts-ranges (b ∷ rest) next)

last-some : (x : ℕ) (xs : List ℕ) → (y : ℕ) × (last (x ∷ xs) ≡ some y)
unfolding last
last-some x [] = (x, refl)
last-some x (y ∷ ys) = last-some y ys

List-cases : (l : List ℕ) → (l ≡ []) ⊎ ((x : ℕ) × (xs : List ℕ) × (l ≡ x ∷ xs))
List-cases [] = inl refl
List-cases (x ∷ xs) = inr (x, xs, refl)

append-IsIncreasing :
    (vals : List ℕ) (start next : ℕ)
    → IsIncreasing vals
    → last vals ≡ some start
    → start < next
    → IsIncreasing (vals ++ next ∷ [])
unfolding last
append-IsIncreasing [] start next h e b = tt
append-IsIncreasing (a ∷ []) start next h e b =
    let same : a ≡ start = cc in (omega (arith, same, b), tt)
append-IsIncreasing (a ∷ c ∷ rest) start next h e b =
    (h.0, append-IsIncreasing (c ∷ rest) start next h.1 e b)

-- `rrule` gives dates in order, and from a date it gives the date itself and a later one.
module _ (rrule : ℕ → Limit → List ℕ)
    (increases : (start : ℕ) (limit : Limit) → IsIncreasing (rrule start limit))
    (steps : (start : ℕ)
      → (next : ℕ) × (start < next) × (rrule start (count 2) ≡ start ∷ next ∷ [])) where
  with_end_dates :
      (x : ℕ) (vals : List ℕ)
      → IsIncreasing (x ∷ vals)
      → (all : List ℕ) × (with_end rrule (x ∷ vals) ≡ dates all)
        × Tiles (ranges all)
        × (map (λ (r : ℕ × ℕ). r.0) (ranges all) ≡ x ∷ vals)
  unfolding with_end
  with_end_dates x vals h =
      let (start, found) = last-some x vals in
      let (next, after, two) = steps start in
      (
        (x ∷ vals) ++ next ∷ [],
        rw (found, with_end) (rw (two, last) refl),
        ranges-Tiles ((x ∷ vals) ++ next ∷ [])
            (append-IsIncreasing (x ∷ vals) start next h found after),
        starts-ranges (x ∷ vals) next,
      )

  -- Given an end date or a count, the generator makes one range from each date of `rrule` on, each
  -- of a day at least, and each starts on the day after the end of the one before; or it raises an
  -- error, if `rrule` gives no date.
  pub generate_intervals-Tiles :
      (date_start : ℕ) (date_end : Option ℕ) (n : ℕ) (batch : Bool) (limit : Limit)
      → limit_of date_end n ≡ some limit
      → (let made = generate_intervals rrule date_start date_end n batch in
          ((rrule date_start limit ≡ []) × (made ≡ no_ranges))
          ⊎ ((vals : List ℕ) × (made ≡ dates vals)
              × Tiles (ranges vals)
              × (map (λ (r : ℕ × ℕ). r.0) (ranges vals) ≡ rrule date_start limit)))
  unfolding generate_intervals with_end
  generate_intervals-Tiles date_start date_end n batch limit e =
      elim (List-cases (rrule date_start limit)) [
        | inl nil ↦ inl (nil, rw (e, generate_intervals) (rw (nil, with_end) refl))
        | inr (x, vals, cons) ↦
            let (all, made, tiles, starts) =
              with_end_dates x vals (subst IsIncreasing cons (increases date_start limit)) in
            inr (
              all,
              rw (e, generate_intervals) (ap (with_end rrule) cons ∙ made),
              tiles,
              starts ∙ sym cons,
            )
      ]
