-- ===== src/DateRanges/Tests.antt =====
-- The theorems on date ranges at concrete inputs.
use others_addons.Base.{
  ℕ, zero, suc, ◌+◌, ◌-◌, ◌/◌, ◌≤◌, ◌≡◌, ◌≢◌, refl, ◌⊎◌, inl, inr, Bool, true, false, List, [], ◌∷◌,
  none, some, arith, ltb, if◌then◌else◌, Bool-cases, In_elim, map,
}
use others_addons.DateRanges.{DateRange, valid, overlaps, save, validate_one}
use others_addons.DateRanges.Disjoint.{IsDisjoint, IsApart, save-IsDisjoint, validate_no_company}
use others_addons.DateRanges.Generator.{
  Limit, until, count, IsIncreasing, Tiles, dates, no_ranges, ranges, generate_intervals,
  generate_intervals-Tiles,
}

abbrev january : DateRange
january = record {
  id = 1;
  name = "January";
  type_id = 3;
  company_id = some 1;
  date_start = 0;
  date_end = 30;
  active = true;
}

abbrev february : DateRange
february = record january { id = 2; name = "February"; date_start = 31; date_end = 58 }

abbrev late_january : DateRange
late_january = record january { id = 3; name = "Late"; date_start = 20 }

abbrev never : ℕ → Bool
never type_id = false

clash : save never true late_january (january ∷ []) ≡ (january ∷ [], overlaps "Late" "January")
unfolding save
clash = refl

no_clash : save never true february (january ∷ []) ≡ (february ∷ january ∷ [], valid)
unfolding save
no_clash = refl

-- A range that is archived when another one takes its days is not validated when it is active again.
unarchived :
    save never false late_january (january ∷ record late_january { active = false } ∷ [])
    ≡ (late_january ∷ january ∷ [], valid)
unfolding save
unarchived = refl

january-IsDisjoint : IsDisjoint never (january ∷ [])
january-IsDisjoint = record {
  is_range = In_elim (λ r. r.date_start ≤ r.date_end) (january ∷ []) (omega arith, tt);
  apart = λ r s m n.
      In_elim (λ r. IsApart never r s) (january ∷ [])
        (
          In_elim (λ s. IsApart never january s) (january ∷ [])
              ((λ i c type u a b. absurd (i refl)), tt) s n,
          tt,
        )
        r m;
}

save-IsDisjoint_example :
    IsDisjoint never (save never true february (january ∷ [])).0
    × (((save never true february (january ∷ [])).1 ≡ valid)
        ⊎ (((save never true february (january ∷ [])).1 ≢ valid)
            × ((save never true february (january ∷ [])).0 ≡ january ∷ [])))
save-IsDisjoint_example =
    save-IsDisjoint never true february (january ∷ []) january-IsDisjoint (inl refl)

abbrev shared : DateRange
shared = record late_january { company_id = none }

validate_no_company_example : validate_one never (shared ∷ january ∷ []) shared ≡ valid
validate_no_company_example =
    validate_no_company never shared (shared ∷ january ∷ []) refl (omega arith)

-- Weeks, as `rrule` gives them.
abbrev weeks : ℕ → ℕ → List ℕ
weeks start zero = []
weeks start (suc n) = start ∷ weeks (start + 7) n

abbrev weekly : ℕ → Limit → List ℕ
weekly start (until end) = if ltb end start then [] else weeks start (suc ((end - start) / 7))
weekly start (count n) = weeks start n

weeks-IsIncreasing : (start n : ℕ) → IsIncreasing (weeks start n)
weeks-IsIncreasing start zero = tt
weeks-IsIncreasing start (suc zero) = tt
weeks-IsIncreasing start (suc (suc n)) = (omega arith, weeks-IsIncreasing (start + 7) (suc n))

weekly-IsIncreasing : (start : ℕ) (limit : Limit) → IsIncreasing (weekly start limit)
weekly-IsIncreasing start (count n) = weeks-IsIncreasing start n
weekly-IsIncreasing start (until end) = elim (Bool-cases (ltb end start)) [
  | inl over ↦ rw over tt
  | inr within ↦ rw within (weeks-IsIncreasing start (suc ((end - start) / 7)))
]

generate_intervals-Tiles_example :
    ((weekly 10 (count 3) ≡ []) × (generate_intervals weekly 10 none 3 false ≡ no_ranges))
    ⊎ ((vals : List ℕ) × (generate_intervals weekly 10 none 3 false ≡ dates vals)
        × Tiles (ranges vals)
        × (map (λ (r : ℕ × ℕ). r.0) (ranges vals) ≡ weekly 10 (count 3)))
generate_intervals-Tiles_example =
    generate_intervals-Tiles weekly weekly-IsIncreasing (λ start. (start + 7, omega arith, refl)) 10
      none 3 false (count 3) refl

three_weeks : generate_intervals weekly 10 none 3 false ≡ dates (10 ∷ 17 ∷ 24 ∷ 31 ∷ [])
unfolding generate_intervals
three_weeks = refl
