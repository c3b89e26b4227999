-- ===== src/Jobs/Job.antt =====
-- `Job` (queue_job/job.py): the fields that running a job changes, and the methods that set its
-- state. The clock and the process id are arguments. Times are natural numbers of one unit.
use Prim.Native.String.{String}
use others_addons.Base.{ℕ, ◌+◌, ◌-◌, Bool, List, Option, none, some, if◌then◌else◌, ◌==◌}
use others_addons.Jobs.State.{
  State, wait_dependencies, pending, enqueued, started, done, cancelled, failed, any_not_done,
}

-- The message of an exception: a text, or the one that `perform` formats.
pub data Message : Type 0 where
  plain : String → Message
  max_retries_reached : ℕ → String → Message

-- A `max_retries` of 0 is no limit.
pub record Job : Type 0 where
  pub state : State
  pub retry : ℕ
  pub max_retries : ℕ
  pub eta : Option ℕ
  pub date_enqueued : Option ℕ
  pub date_started : Option ℕ
  pub date_done : Option ℕ
  pub date_cancelled : Option ℕ
  pub result : Option String
  pub exc_name : Option String
  pub exc_message : Option Message
  pub exc_info : Option String
  pub worker_pid : Option ℕ

-- `if value is not None: … = value`
unfoldable pub replace : {A : Type 0} → Option A → Option A → Option A
replace none old = old
replace (some value) old = some value

-- `parents` are the states of the jobs that this one depends on.
unfoldable pub set_pending : List State → Option String → Bool → Job → Job
unfolding replace
set_pending parents result reset_retry job = record job {
  state = if any_not_done parents then wait_dependencies else pending;
  date_enqueued = none;
  date_started = none;
  date_done = none;
  worker_pid = none;
  date_cancelled = none;
  retry = if reset_retry then 0 else job.retry;
  result = replace result job.result;
}

unfoldable pub set_enqueued : ℕ → Job → Job
set_enqueued now job = record job {
  state = enqueued;
  date_enqueued = some now;
  date_started = none;
  worker_pid = none;
}

-- But for `add_lock_record`, whose row is part of the database.
unfoldable pub set_started : ℕ → ℕ → Job → Job
set_started now pid job = record job {
  state = started;
  date_started = some now;
  worker_pid = some pid;
}

unfoldable pub set_done : ℕ → Option String → Job → Job
unfolding replace
set_done now result job = record job {
  state = done;
  exc_name = none;
  exc_info = none;
  date_done = some now;
  result = replace result job.result;
}

unfoldable pub set_cancelled : ℕ → Option String → Job → Job
unfolding replace
set_cancelled now result job = record job {
  state = cancelled;
  date_cancelled = some now;
  result = replace result job.result;
}

-- With the keywords of `_get_failure_values`, none of which is `None`.
unfoldable pub set_failed : String → String → Message → Job → Job
set_failed exc_info exc_name exc_message job = record job {
  state = failed;
  exc_info = some exc_info;
  exc_name = some exc_name;
  exc_message = some exc_message;
}

-- The setter of `eta` at a `timedelta` of some seconds: an empty one is no eta.
unfoldable pub eta_after : ℕ → ℕ → Option ℕ
eta_after now seconds = if seconds == 0 then none else some (now + seconds)

-- `exec_time`; a time that runs backwards counts as none at all.
unfoldable pub exec_time : Job → Option ℕ
exec_time job = elim job.date_done [
  | none ↦ none
  | some end ↦ elim job.date_started [ none ↦ none | some start ↦ some (end - start) ]
]
