-- ===== src/Jobs/Retry.antt =====
-- `_get_retry_seconds` and `postpone` (queue_job/job.py): when a job is tried again.
pub mod Pattern
use Prim.Native.String.{String}
use others_addons.Base.{
  ℕ, ◌+◌, ◌≤◌, Bool, true, false, not, ◌&&◌, List, [], ◌∷◌, Option, none, some, if◌then◌else◌, ◌==◌,
  leb, ltb,
}
use others_addons.Jobs.Job.{Job, replace, eta_after}

-- A number of seconds, or a pair of bounds between which one is drawn.
pub data Seconds : Type 0 where
  exactly : ℕ → Seconds
  between : ℕ → ℕ → Seconds

-- `RETRY_INTERVAL`
abbrev pub retry_interval : Seconds
retry_interval = exactly 600

-- `retry_pattern.items()`: from a count of retries to the seconds to wait.
abbrev pub Pattern : Type 0
Pattern = List (ℕ × Seconds)

-- `sorted(retry_pattern.items(), key=lambda t: t[0])`, a stable sort by the count.
unfoldable pub insert_item : ℕ × Seconds → Pattern → Pattern
insert_item item [] = item ∷ []
insert_item item (other ∷ rest) =
    let later = insert_item item rest in
    if leb item.0 other.0 then item ∷ other ∷ rest else other ∷ later

unfoldable pub sort_items : Pattern → Pattern
unfolding insert_item
sort_items [] = []
sort_items (item ∷ rest) = insert_item item (sort_items rest)

-- The `for` loop with its `break`.
unfoldable pub scan : ℕ → Seconds → Pattern → Seconds
scan retry seconds [] = seconds
scan retry seconds ((count, postpone_seconds) ∷ rest) =
    let later = scan retry postpone_seconds rest in if leb count retry then later else seconds

-- `not seconds`, for a parameter that is `None` or a number.
abbrev pub is_unset : Option ℕ → Bool
is_unset none = true
is_unset (some n) = n == 0

abbrev pub is_nil : Pattern → Bool
is_nil [] = true
is_nil (item ∷ rest) = false

abbrev given : Option ℕ → Seconds
given none = exactly 0
given (some n) = exactly n

unfoldable pub choose_seconds : Pattern → ℕ → Option ℕ → Seconds
unfolding sort_items scan
choose_seconds pattern retry seconds =
    if is_unset seconds && not (is_nil pattern)
    then scan retry retry_interval (sort_items pattern)
    else if is_unset seconds
    then retry_interval
    else given seconds

-- `randint` is a parameter.
module _ (randint : ℕ → ℕ → ℕ) where
  unfoldable pub draw : Seconds → ℕ
  draw (exactly n) = n
  draw (between low high) = randint low high

  unfoldable pub get_retry_seconds : Pattern → ℕ → Option ℕ → ℕ
  unfolding draw choose_seconds
  get_retry_seconds pattern retry seconds = draw (choose_seconds pattern retry seconds)

  unfoldable pub postpone : ℕ → Pattern → Option String → Option ℕ → Job → Job
  unfolding get_retry_seconds replace eta_after
  postpone now pattern result seconds job = record job {
    eta = eta_after now (get_retry_seconds pattern job.retry seconds);
    exc_name = none;
    exc_info = none;
    result = replace result job.result;
  }
