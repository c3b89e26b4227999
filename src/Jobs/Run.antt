-- ===== src/Jobs/Run.antt =====
-- Running a job: `Job.perform` (queue_job/job.py), and `_acquire_job`, `_try_perform_job` and
-- `_runjob` of the controller (queue_job/controllers/main.py). What the job's own method does, the
-- database and the clock are arguments.
pub mod Outcome
pub mod Retries
use Prim.Native.String.{String}
use others_addons.Base.{
  ℕ, zero, suc, ◌+◌, ◌-◌, Bool, true, false, not, ◌&&◌, List, [], ◌∷◌, Option, none, some,
  if◌then◌else◌, ◌==◌, leb,
}
use others_addons.Jobs.State.{State, enqueued, is_state}
use others_addons.Jobs.Job.{
  Job, Message, plain, max_retries_reached, set_pending, set_started, set_done, set_failed,
}
use others_addons.Jobs.Retry.{Pattern, postpone}

-- An exception that comes out of a job. For an `OperationalError` the flag says whether its code is
-- in `PG_CONCURRENCY_ERRORS_TO_RETRY`; the name is that of its class. `failed_job` is a
-- `FailedJobError` itself, any other class is `other`.
pub data Error : Type 0 where
  retryable : (message : String) (seconds : Option ℕ) (ignore_retry : Bool) → Error
  failed_job : Message → Error
  operational : (concurrency : Bool) (name : String) (message : String) → Error
  other : (name : String) (message : String) → Error

-- What the method of the job does.
pub data Call : Type 0 where
  returns : Option String → Call
  raises : Error → Call

-- The `except RetryableJobError` of `perform`, on a job whose count of tries has gone up.
unfoldable pub retry_error : String → Option ℕ → Bool → Job → Job × Option Error
retry_error message seconds ignore_retry job =
    if ignore_retry
    then (record job { retry = job.retry - 1 }, some (retryable message seconds ignore_retry))
    else if job.max_retries == 0
    then (job, some (retryable message seconds ignore_retry))
    else if leb job.max_retries job.retry
    then (job, some (failed_job (max_retries_reached job.max_retries message)))
    else (job, some (retryable message seconds ignore_retry))

abbrev pub tried : Job → Job
tried job = record job { retry = job.retry + 1 }

-- `perform`: the job afterwards, and the exception that it raises, if any.
unfoldable pub perform : Call → Job → Job × Option Error
unfolding retry_error
perform (returns value) job = (record (tried job) { result = value }, none)
perform (raises (retryable message seconds ignore_retry)) job =
    retry_error message seconds ignore_retry (tried job)
perform (raises (failed_job message)) job = (tried job, some (failed_job message))
perform (raises (operational concurrency name message)) job =
    (tried job, some (operational concurrency name message))
perform (raises (other name message)) job = (tried job, some (other name message))

-- One call of the job: what its method does, the errors of the two flushes and of the commit, the
-- states of the jobs that it depends on, the text of the traceback, and what `_enqueue_dependent_jobs` raises.
pub record World : Type 0 where
  pub now : ℕ
  pub call : Call
  pub flush_error : Option Error
  pub commit_error : Option Error
  pub parents : List State
  pub traceback : String
  pub dependents_error : Option Error

-- `_try_perform_job` behind `perform`, outside test mode. The commit stores the job that is done.
unfoldable pub finish_job : World → Job × Option Error → Job × Option Error
finish_job w (job, some error) = (job, some error)
finish_job w (job, none) = elim w.flush_error [
  | some error ↦ (job, some error)
  | none ↦ (set_done w.now none job, w.commit_error)
]

unfoldable pub try_perform_job : World → Job → Job × Option Error
unfolding finish_job
try_perform_job w job = finish_job w (perform w.call job)

-- `PG_RETRY`
abbrev pub pg_retry : ℕ
pg_retry = 5

-- What `_runjob` leaves: the row that is committed, the exception raised, and whether it goes on to
-- `_enqueue_dependent_jobs`, whose exception it passes on.
pub record Result : Type 0 where
  pub stored : Job
  pub raised : Option Error
  pub enqueues_dependents : Bool

abbrev pub message_of : Error → Message
message_of (retryable message seconds ignore_retry) = plain message
message_of (failed_job message) = message
message_of (operational concurrency name message) = plain message
message_of (other name message) = plain message

-- `exception_name` of `_get_failure_values`.
abbrev pub name_of : Error → String
name_of (retryable message seconds ignore_retry) =
    "odoo.addons.queue_job.exception.RetryableJobError"
name_of (failed_job message) = "odoo.addons.queue_job.exception.FailedJobError"
name_of (operational concurrency name message) = name
name_of (other name message) = name

module _ (randint : ℕ → ℕ → ℕ) (pattern : Pattern) where
  -- `retry_postpone`
  unfoldable pub retry_postpone : World → String → Option ℕ → Job → Job
  unfolding set_pending
  retry_postpone w message seconds job =
      set_pending w.parents none false (postpone randint w.now pattern (some message) seconds job)

  -- The handlers of `_runjob`.
  unfoldable pub handle : World → Job → Error → Result
  unfolding retry_postpone
  handle w job (retryable message seconds ignore_retry) = record {
    stored = retry_postpone w message seconds job;
    raised = none;
    enqueues_dependents = false;
  }
  handle w job (operational true name message) = record {
    stored = retry_postpone w message (some pg_retry) job;
    raised = none;
    enqueues_dependents = false;
  }
  handle w job error = record {
    stored = set_failed w.traceback (name_of error) (message_of error) job;
    raised = some error;
    enqueues_dependents = false;
  }

  unfoldable pub settle : World → Job × Option Error → Result
  unfolding handle
  settle w (job, none) = record {
    stored = job;
    raised = w.dependents_error;
    enqueues_dependents = true;
  }
  settle w (job, some error) = handle w job error

  unfoldable pub run_job : World → Job → Result
  unfolding settle
  run_job w job = settle w (try_perform_job w job)

  -- `_acquire_job` on the row of the job: the row that is committed, and the job if it is to run.
  -- `free` and `locked` are what the two `SKIP LOCKED` queries find.
  unfoldable pub acquire_job : Bool → Bool → ℕ → ℕ → Option Job → Option Job × Option Job
  acquire_job free locked now pid none = (none, none)
  acquire_job free locked now pid (some row) =
      if is_state row.state enqueued && free
      then (
        some (set_started now pid row),
        (if locked then some (set_started now pid row) else none),
      )
      else (some row, none)

  -- `runjob`: the committed row afterwards, and the exception raised.
  unfoldable pub runjob : Bool → Bool → ℕ → World → Option Job → Option Job × Option Error
  unfolding acquire_job
  runjob free locked pid w row =
      let (started_row, acquired) = acquire_job free locked w.now pid row in
      elim acquired [
        | none ↦ (started_row, none)
        | some job ↦ let r = run_job w job in (some r.stored, r.raised)
      ]
