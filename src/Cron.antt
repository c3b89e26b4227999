-- ===== src/Cron.antt =====
-- Jobs that a cron runs one after the other (queue_job_cron_jobrunner/models/queue_job.py). The
-- table lists the rows in the order of priority and creation date.
pub mod Idle
mod Tests
use Prim.Native.String.{String}
use others_addons.Base.{
  ℕ, zero, suc, Bool, true, false, not, ◌&&◌, List, [], ◌∷◌, Option, none, some, if◌then◌else◌,
  ◌==◌, leb,
}
use others_addons.Jobs.State.{State, pending, failed, is_state}
use others_addons.Jobs.Job.{Job, set_pending, set_started, set_done}
use others_addons.Jobs.Retry.{Pattern, postpone}
use others_addons.Jobs.Run.{Error, Call, retryable, operational, perform, pg_retry}
use others_addons.Jobs.Dependents.{Row, Table, states_of, change_job, enqueue_waiting}

-- `eta IS NULL OR eta <= now()`
abbrev pub is_past : ℕ → Option ℕ → Bool
is_past now none = true
is_past now (some eta) = leb eta now

-- `SELECT … LIMIT 1 FOR NO KEY UPDATE SKIP LOCKED`; `locked` are the rows of other workers.
unfoldable pub acquire_one_job : ℕ → (ℕ → Bool) → Table → Option Row
acquire_one_job now locked [] = none
acquire_one_job now locked (r ∷ t) =
    let rest = acquire_one_job now locked t in
    if is_state r.job.state pending && (is_past now r.job.eta && not (locked r.uuid))
    then some r
    else rest

-- What a job meets: what its method does, the error of the store behind it, and the traceback.
pub record Run : Type 0 where
  pub call : Call
  pub store_error : Option Error
  pub traceback : String

-- The body of the inner `try`.
abbrev pub and_done : ℕ → Option Error → Job × Option Error → Job × Option Error
and_done now store_error (job, some error) = (job, some error)
and_done now store_error (job, none) = (set_done now none job, store_error)

module _ (randint : ℕ → ℕ → ℕ) (pattern : Pattern) where
  -- `postpone` and `set_pending(reset_retry=False)`
  unfoldable pub retry_later : ℕ → List State → String → ℕ → Job → Job
  unfolding postpone set_pending
  retry_later now parents message seconds job =
      set_pending parents none false
        (postpone randint now pattern (some message) (some seconds) job)

  -- The handlers.
  unfoldable pub handle : ℕ → List State → String → Job × Option Error → Job
  unfolding retry_later
  handle now parents traceback (job, none) = job
  handle now parents traceback (job, some (retryable message seconds ignore_retry)) =
      retry_later now parents message 5 job
  handle now parents traceback (job, some (operational true name message)) =
      retry_later now parents message pg_retry job
  handle now parents traceback (job, some error) = record job {
    state = failed;
    exc_info = some traceback;
  }

  unfoldable pub process_job : ℕ → ℕ → Run → List State → Job → Job
  unfolding handle set_started perform
  process_job now pid run parents job =
      handle now parents run.traceback
        (and_done now run.store_error (perform run.call (set_started now pid job)))

  -- `_process`
  unfoldable pub process : ℕ → ℕ → (ℕ → Run) → ℕ → Table → Table
  unfolding process_job change_job enqueue_waiting states_of
  process now pid runs uuid t =
      enqueue_waiting uuid
        (change_job uuid (λ r. process_job now pid (runs uuid) (states_of r.depends_on t) r.job) t)

  -- `_job_runner`. The fuel bounds the jobs that are processed. In the round with some fuel left `clock` is
  -- the time, and `changes` is what the method of the job and other transactions do to the table.
  unfoldable pub job_runner :
      ℕ → (ℕ → ℕ) → ℕ → (ℕ → Bool) → (ℕ → Run) → (ℕ → Table → Table) → Table → Table
  unfolding process acquire_one_job
  job_runner zero clock pid locked runs changes t = t
  job_runner (suc fuel) clock pid locked runs changes t =
      elim (acquire_one_job (clock fuel) locked t) [
        | none ↦ t
        | some r ↦
            job_runner fuel clock pid locked runs changes
              (changes fuel (process (clock fuel) pid runs r.uuid t))
      ]
