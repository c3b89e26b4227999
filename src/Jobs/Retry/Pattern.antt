-- ===== src/Jobs/Retry/Pattern.antt =====
-- Which entry of a retry pattern counts (queue_job/job.py, `_get_retry_seconds`).
use mathlib.Core.Logic.{◌⊎◌, inl, inr}
use others_addons.Base.{ℕ, ◌≤◌, ◌<◌, ◌≡◌, refl, [], ◌∷◌, none, some, arith, leb, Bool-cases, In}
use others_addons.Jobs.Retry.{
  Seconds, exactly, retry_interval, Pattern, insert_item, sort_items, scan, choose_seconds,
}

-- The entry with the greatest count that the retries have reached, or the default interval.
pub data Chooses (retry : ℕ) (default : Seconds) (pattern : Pattern) : Seconds → Type 0 where
  no_entry :
      ((item : ℕ × Seconds) → In item pattern → retry < item.0)
      → Chooses retry default pattern default
  entry :
      (count : ℕ) (seconds : Seconds)
      → In (count, seconds) pattern
      → count ≤ retry
      → ((item : ℕ × Seconds) → In item pattern → item.0 ≤ retry → item.0 ≤ count)
      → Chooses retry default pattern seconds

abbrev IsSorted : Pattern → Type 0
IsSorted [] = Unit {0}
IsSorted (item ∷ rest) = ((other : ℕ × Seconds) → In other rest → item.0 ≤ other.0) × IsSorted rest

In-insert_item :
    (x item : ℕ × Seconds) (l : Pattern) → In x (insert_item item l) → (x ≡ item) ⊎ In x l
unfolding insert_item
In-insert_item x item [] m = m
In-insert_item x item (other ∷ rest) m = elim (Bool-cases (leb item.0 other.0)) [
  | inl here ↦ rw here at m
  | inr later ↦ elim (rw later at m) [
    | inl e ↦ inr (inl e)
    | inr n ↦ elim (In-insert_item x item rest n) [ inl e ↦ inl e | inr k ↦ inr (inr k) ]
  ]
]

In-insert_item' :
    (x item : ℕ × Seconds) (l : Pattern) → (x ≡ item) ⊎ In x l → In x (insert_item item l)
unfolding insert_item
In-insert_item' x item [] m = m
In-insert_item' x item (other ∷ rest) m = elim (Bool-cases (leb item.0 other.0)) [
  | inl here ↦ rw here m
  | inr later ↦ rw later (elim m [
    | inl e ↦ inr (In-insert_item' x item rest (inl e))
    | inr n ↦ elim n [ inl e ↦ inl e | inr k ↦ inr (In-insert_item' x item rest (inr k)) ]
  ])
]

insert_item-IsSorted :
    (item : ℕ × Seconds) (l : Pattern) → IsSorted l → IsSorted (insert_item item l)
unfolding insert_item
insert_item-IsSorted item [] s = (λ x m. absurd m, tt)
insert_item-IsSorted item (other ∷ rest) s = elim (Bool-cases (leb item.0 other.0)) [
  | inl here ↦
      rw here (λ x m. elim m [ inl e ↦ rw e (ground arith) | inr n ↦ ground (arith, s.0 x n) ], s)
  | inr later ↦ rw later (
    λ x m. elim (In-insert_item x item rest m) [ inl e ↦ rw e (ground arith) | inr n ↦ s.0 x n ],
    insert_item-IsSorted item rest s.1,
  )
]

In-sort_items : (x : ℕ × Seconds) (l : Pattern) → In x (sort_items l) → In x l
unfolding sort_items
In-sort_items x [] m = m
In-sort_items x (item ∷ rest) m = elim (In-insert_item x item (sort_items rest) m) [
  | inl e ↦ inl e
  | inr n ↦ inr (In-sort_items x rest n)
]

In-sort_items' : (x : ℕ × Seconds) (l : Pattern) → In x l → In x (sort_items l)
unfolding sort_items
In-sort_items' x [] m = m
In-sort_items' x (item ∷ rest) (inl e) = In-insert_item' x item (sort_items rest) (inl e)
In-sort_items' x (item ∷ rest) (inr n) =
    In-insert_item' x item (sort_items rest) (inr (In-sort_items' x rest n))

sort_items-IsSorted : (l : Pattern) → IsSorted (sort_items l)
unfolding sort_items
sort_items-IsSorted [] = tt
sort_items-IsSorted (item ∷ rest) =
    insert_item-IsSorted item (sort_items rest) (sort_items-IsSorted rest)

-- The first entry has been reached, and the rest chooses.
reached :
    (retry count : ℕ) (seconds : Seconds) (rest : Pattern) {default s : Seconds}
    → count ≤ retry
    → ((item : ℕ × Seconds) → In item rest → count ≤ item.0)
    → Chooses retry seconds rest s
    → Chooses retry default ((count, seconds) ∷ rest) s
reached retry count seconds rest h first (no_entry none_reached) =
    entry count seconds (inl refl) h λ item m k. elim m [
      | inl e ↦ rw e (omega arith)
      | inr n ↦ ground (arith, none_reached item n)
    ]
reached retry count seconds rest h first (entry c s m k greatest) =
    entry c s (inr m) k
      λ item n l. elim n [ inl e ↦ rw e (first (c, s) m) | inr o ↦ greatest item o l ]

scan-Chooses :
    (retry : ℕ) (default : Seconds) (l : Pattern)
    → IsSorted l
    → Chooses retry default l (scan retry default l)
unfolding scan
scan-Chooses retry default [] s = no_entry (λ item m. absurd m)
scan-Chooses retry default ((count, seconds) ∷ rest) s = elim (Bool-cases (leb count retry)) [
  | inl hit ↦
      rw hit
        (reached retry count seconds rest (ground arith) s.0 (scan-Chooses retry seconds rest s.1))
  | inr miss ↦ rw miss (
      no_entry
        λ item m. elim m [ inl e ↦ rw e (ground arith) | inr n ↦ ground (arith, s.0 item n) ])
]

same_entries :
    {retry : ℕ} {default s : Seconds} {l l' : Pattern}
    → ((x : ℕ × Seconds) → In x l → In x l')
    → ((x : ℕ × Seconds) → In x l' → In x l)
    → Chooses retry default l s
    → Chooses retry default l' s
same_entries to from (no_entry n) = no_entry (λ item m. n item (from item m))
same_entries to from (entry c s m k g) = entry c s (to (c, s) m) k (λ item n. g item (from item n))

choose_default :
    (retry : ℕ) (pattern : Pattern)
    → Chooses retry retry_interval pattern (choose_seconds pattern retry none)
unfolding choose_seconds
choose_default retry [] = no_entry (λ item m. absurd m)
choose_default retry (item ∷ rest) =
    same_entries (λ x. In-sort_items x (item ∷ rest)) (λ x. In-sort_items' x (item ∷ rest))
      (scan-Chooses retry retry_interval (sort_items (item ∷ rest))
        (sort_items-IsSorted (item ∷ rest)))

-- An explicit number of seconds, if it is not 0, is taken as it is. Otherwise the entry of the
-- pattern counts whose count is the greatest that the retries have reached, in whatever order the
-- pattern is written; if they have reached none, it is the default interval.
pub choose_seconds-Chooses :
    (pattern : Pattern) (retry : ℕ)
    → ((seconds : ℕ) → 0 < seconds → choose_seconds pattern retry (some seconds) ≡ exactly seconds)
      × Chooses retry retry_interval pattern (choose_seconds pattern retry none)
      × (choose_seconds pattern retry (some 0) ≡ choose_seconds pattern retry none)
unfolding choose_seconds
choose_seconds-Chooses pattern retry =
    (λ seconds h. ground arith, choose_default retry pattern, ground arith)
