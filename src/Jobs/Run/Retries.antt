-- ===== src/Jobs/Run/Retries.antt =====
-- How often a job is tried (queue_job/job.py, `perform`; queue_job/controllers/main.py, `_runjob`).
use Prim.Native.String.{String}
use others_addons.Base.{
  ℕ, suc, ◌+◌, ◌≤◌, ◌<◌, ◌≡◌, refl, ◌∙◌, sym, subst, ◌⊎◌, inl, inr, Bool, true, false, List, [],
  ◌∷◌, Option, none, some, arith, Option-cases,
}
use others_addons.Jobs.State.{failed}
use others_addons.Jobs.Job.{
  Job, max_retries_reached, set_pending, set_enqueued, set_started, set_done, set_failed, eta_after,
}
use others_addons.Jobs.Retry.{Pattern, postpone, get_retry_seconds}
use others_addons.Jobs.Run.{
  Error, Call, failed_job, retry_error, tried, retryable, operational, other, returns, raises,
  World, perform, finish_job, try_perform_job, pg_retry, handle, settle, run_job,
}
use others_addons.Jobs.Run.Outcome.{waiting_state}

-- The method of the job raises a `RetryableJobError` that counts.
abbrev pub IsRetryable : World → Type 0
IsRetryable w =
    (message : String) × (seconds : Option ℕ) × (w.call ≡ raises (retryable message seconds false))

module _ (randint : ℕ → ℕ → ℕ) (pattern : Pattern) where
  -- A retryable error below the limit: the job waits, with the count of its tries raised by one,
  -- until the seconds of the error or of its retry pattern have passed.
  pub retry_below :
      (w : World) (job : Job) (message : String) (seconds : Option ℕ)
      → w.call ≡ raises (retryable message seconds false)
      → suc job.retry < job.max_retries ⊎ (job.max_retries ≡ 0)
      → (let r = run_job randint pattern w job in
          (r.stored.state ≡ waiting_state w.parents)
          × (r.stored.retry ≡ job.retry + 1)
          × (r.stored.max_retries ≡ job.max_retries)
          × (r.stored.eta
              ≡ eta_after w.now (get_retry_seconds randint pattern (job.retry + 1) seconds))
          × (r.raised ≡ none))
  unfolding run_job try_perform_job perform handle postpone set_pending
  retry_below w job message seconds e h = rw (e, perform) (ground arith)

  -- At the limit: the job has failed, and says so.
  pub retry_at_limit :
      (w : World) (job : Job) (message : String) (seconds : Option ℕ)
      → w.call ≡ raises (retryable message seconds false)
      → 0 < job.max_retries
      → job.max_retries ≤ suc job.retry
      → (let r = run_job randint pattern w job in
          (r.stored.state ≡ failed)
          × (r.stored.retry ≡ job.retry + 1)
          × (r.stored.exc_message ≡ some (max_retries_reached job.max_retries message)))
  unfolding run_job try_perform_job perform handle set_failed
  retry_at_limit w job message seconds e h k = rw (e, perform) (ground arith)

  -- A job that waits is enqueued, started and run; then the same for each later call.
  abbrev pub cycle : ℕ → World → Job → Job
  cycle pid w job =
      (run_job randint pattern w (set_started w.now pid (set_enqueued w.now job))).stored

  abbrev pub cycles : ℕ → List World → Job → Job
  cycles pid [] job = job
  cycles pid (w ∷ ws) job = cycles pid ws (cycle pid w job)

  abbrev pub last_of : World → List World → World
  last_of w [] = w
  last_of w (w' ∷ ws) = last_of w' ws

  finish_job_cases :
      (w : World) (r : Job × Option Error)
      → ((finish_job w r).0.retry ≡ r.0.retry) × ((r.1 ≡ none) ⊎ ((finish_job w r).1 ≡ r.1))
  unfolding finish_job set_done
  finish_job_cases w (job, some error) = (refl, inr refl)
  finish_job_cases w (job, none) = elim (Option-cases w.flush_error) [
    | inl flushed ↦ (rw (flushed, finish_job) refl, inl refl)
    | inr (error, broken) ↦ (rw (broken, finish_job) refl, inl refl)
  ]

  -- Only a retryable error may leave the try uncounted.
  abbrev Counts : Option Error → Type 0
  Counts none = Unit {0}
  Counts (some (operational concurrency name message)) = Unit {0}
  Counts (some error) = ⊥

  retry_error-Counts :
      (message : String) (seconds : Option ℕ) (ignore_retry : Bool) (job : Job)
      → Counts (retry_error message seconds ignore_retry job).1
      → (retry_error message seconds ignore_retry job).0.retry ≡ job.retry
  unfolding retry_error
  retry_error-Counts message seconds true job c = absurd c
  retry_error-Counts message seconds false job c = ground arith

  perform-Counts :
      (call : Call) (job : Job)
      → Counts (perform call job).1
      → (perform call job).0.retry ≡ job.retry + 1
  unfolding perform
  perform-Counts (returns value) job c = refl
  perform-Counts (raises (retryable message seconds ignore_retry)) job c =
      retry_error-Counts message seconds ignore_retry (tried job) c
  perform-Counts (raises (failed_job message)) job c = refl
  perform-Counts (raises (operational concurrency name message)) job c = refl
  perform-Counts (raises (other name message)) job c = refl

  tried_once :
      (w : World) (job : Job) (name message : String)
      → (try_perform_job w job).1 ≡ some (operational true name message)
      → (try_perform_job w job).0.retry ≡ job.retry + 1
  unfolding try_perform_job
  tried_once w job name message e =
      let (same, cases) = finish_job_cases w (perform w.call job) in
      same
      ∙ perform-Counts w.call job (elim cases [
        | inl fine ↦ subst Counts (sym fine) tt
        | inr kept ↦ subst Counts (sym e ∙ kept) tt
      ])

  settle_concurrency :
      (w : World) (r : Job × Option Error) (name message : String)
      → r.1 ≡ some (operational true name message)
      → ((settle randint pattern w r).stored.state ≡ waiting_state w.parents)
        × ((settle randint pattern w r).stored.retry ≡ r.0.retry)
        × ((settle randint pattern w r).stored.eta ≡ some (w.now + pg_retry))
        × ((settle randint pattern w r).raised ≡ none)
  unfolding settle handle postpone set_pending
  settle_concurrency w (job, error) name message e = rw e (refl, refl, refl, refl)

  -- A concurrency error of the database, from the method of the job, from a flush or from the commit,
  -- counts as a try, but however many tries there were the job is never failed by it: it waits for
  -- another try in `PG_RETRY` seconds, and no exception is passed on.
  pub concurrency_error_waits :
      (w : World) (job : Job) (name message : String)
      → (try_perform_job w job).1 ≡ some (operational true name message)
      → (let r = run_job randint pattern w job in
          (r.stored.state ≡ waiting_state w.parents)
          × (r.stored.retry ≡ job.retry + 1)
          × (r.stored.eta ≡ some (w.now + pg_retry))
          × (r.raised ≡ none))
  unfolding run_job
  concurrency_error_waits w job name message e =
      let (state, retry, eta, raised) =
        settle_concurrency w (try_perform_job w job) name message e in
      (state, retry ∙ tried_once w job name message e, eta, raised)
