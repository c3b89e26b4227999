-- ===== src/Channels/Job.antt =====
-- `ChannelJob` (queue_job/jobrunner/channels.py): what a channel knows of a job, and the order of
-- jobs. A job object is a reference into a store, since `set_no_eta` changes the shared object.
-- Times are natural numbers of one unit; priorities and sequence numbers are natural numbers.
pub mod Order
use Prim.Native.String.{String}
use others_addons.Base.{ℕ, Bool, true, false, List, Option, none, some, ◌==◌, ltb, if◌then◌else◌}

-- `JobSortingKey`
pub record SortingKey : Type 0 where
  pub eta : Option ℕ
  pub priority : ℕ
  pub date_created : ℕ
  pub seq : ℕ

-- Database names and uuids are only compared: they are numbers. The channel is named by the names on the path from the root channel to it.
pub record ChannelJob : Type 0 where
  pub db_name : ℕ
  pub channel : List String
  pub uuid : ℕ
  pub key : SortingKey

-- `__eq__` and `__hash__` compare identities, so a set of jobs is a set of references.
abbrev pub Jobs : Type 0
Jobs = ℕ → ChannelJob

-- The comparison of `sorting_key_ignoring_eta()`.
unfoldable pub lt_ignoring_eta : SortingKey → SortingKey → Bool
lt_ignoring_eta a b =
    if a.priority == b.priority
    then if a.date_created == b.date_created
      then ltb a.seq b.seq
      else ltb a.date_created b.date_created
    else ltb a.priority b.priority

-- `__lt__` on the whole keys. `none` is the `TypeError` of comparing a time with `None`.
unfoldable pub lt? : SortingKey → SortingKey → Option Bool
lt? a b = elim a.eta [
  | none ↦ elim b.eta [ none ↦ some (lt_ignoring_eta a b) | some t ↦ none ]
  | some s ↦ elim b.eta [
    | none ↦ none
    | some t ↦ some (if s == t then lt_ignoring_eta a b else ltb s t)
  ]
]

abbrev pub is_less : Option Bool → Bool
is_less none = false
is_less (some b) = b

-- The order of the heaps: that of `__lt__`, where it does not raise.
unfoldable pub before : Jobs → ℕ → ℕ → Bool
unfolding lt?
before jobs i j = is_less (lt? (jobs i).key (jobs j).key)

-- `job.eta` as a number: 0 if there is none, which is also how the code tests it (`if job.eta`).
abbrev pub eta_or_zero : Option ℕ → ℕ
eta_or_zero none = 0
eta_or_zero (some t) = t

abbrev pub eta_of : ChannelJob → ℕ
eta_of job = eta_or_zero job.key.eta

abbrev pub drop_eta : ChannelJob → ChannelJob
drop_eta job = record job {
  key = record {
    eta = none;
    priority = job.key.priority;
    date_created = job.key.date_created;
    seq = job.key.seq;
  };
}

-- `set_no_eta` on the object that `o` refers to.
unfoldable pub set_no_eta : Jobs → ℕ → Jobs
set_no_eta jobs o x = if x == o then drop_eta (jobs x) else jobs x
