-- ===== src/Jobs/Run/Outcome.antt =====
-- Where a run leaves a job (queue_job/controllers/main.py, `_runjob`), on every path.

use others_addons.Base.{
  ℕ, ◌≡◌, ◌≢◌, refl, ◌⊎◌, inl, inr, true, false, List, Option, none, some, arith, if◌then◌else◌,
  Option-cases,
}
use others_addons.Jobs.State.{State, wait_dependencies, pending, done, failed, any_not_done}
use others_addons.Jobs.Job.{Job, set_done, set_failed}
use others_addons.Jobs.Retry.{Pattern}
use others_addons.Jobs.Run.{
  Error, retryable, failed_job, operational, other, World, Result, perform, finish_job,
  try_perform_job, handle, settle, run_job,
}

-- The state of a job that has to wait for its next try.
abbrev pub waiting_state : List State → State
waiting_state parents = if any_not_done parents then wait_dependencies else pending

-- The three ways in which a run ends.
abbrev pub IsDone : World → Result → Type 0
IsDone w r =
    (r.stored.state ≡ done)
    × (r.stored.date_done ≡ some w.now)
    × (r.raised ≡ w.dependents_error)
    × (r.enqueues_dependents ≡ true)

abbrev pub IsPostponed : World → Result → Type 0
IsPostponed w r =
    (r.stored.state ≡ waiting_state w.parents)
    × (r.stored.date_started ≡ none)
    × (r.stored.date_done ≡ none)
    × (r.stored.worker_pid ≡ none)
    × (r.raised ≡ none)
    × (r.enqueues_dependents ≡ false)

abbrev pub IsFailed : Result → Type 0
IsFailed r =
    (r.stored.state ≡ failed)
    × (r.stored.exc_name ≢ none)
    × (r.raised ≢ none)
    × (r.enqueues_dependents ≡ false)

finished :
    (w : World) (r : Job × Option Error)
    → (finish_job w r).1 ≡ none
    → ((finish_job w r).0.state ≡ done) × ((finish_job w r).0.date_done ≡ some w.now)
unfolding finish_job set_done
finished w (job, some e) h = absurd (cc)
finished w (job, none) h = elim (Option-cases w.flush_error) [
  | inl fine ↦ rw (fine, finish_job) (refl, refl)
  | inr (e, broken) ↦ absurd (ground arith)
]

module _ (randint : ℕ → ℕ → ℕ) (pattern : Pattern) where
  handle_cases :
      (w : World) (job : Job) (e : Error)
      → IsPostponed w (handle randint pattern w job e) ⊎ IsFailed (handle randint pattern w job e)
  unfolding handle set_failed
  handle_cases w job (retryable message seconds ignore_retry) =
      inl (refl, refl, refl, refl, refl, refl)
  handle_cases w job (failed_job message) = inr (refl, (λ h. cc), (λ h. cc), refl)
  handle_cases w job (operational true name message) = inl (refl, refl, refl, refl, refl, refl)
  handle_cases w job (operational false name message) = inr (refl, (λ h. cc), (λ h. cc), refl)
  handle_cases w job (other name message) = inr (refl, (λ h. cc), (λ h. cc), refl)

  settle_cases :
      (w : World) (job : Job) (error : Option Error)
      → (error ≡ none → (job.state ≡ done) × (job.date_done ≡ some w.now))
      → IsDone w (settle randint pattern w (job, error))
        ⊎ (IsPostponed w (settle randint pattern w (job, error))
            ⊎ IsFailed (settle randint pattern w (job, error)))
  unfolding settle
  settle_cases w job none h = inl ((h refl).0, (h refl).1, refl, refl)
  settle_cases w job (some e) h = inr (handle_cases w job e)

  -- Every run ends, and the committed row is done, waits for its next try, or has failed: it is
  -- never left started. Only a job that is done wakes the jobs that depend on it, and then the
  -- exception passed on is the one of that, if any. A job that waits passes none on, and one that has failed does.
  pub run_job_cases :
      (w : World) (job : Job)
      → IsDone w (run_job randint pattern w job)
        ⊎ (IsPostponed w (run_job randint pattern w job) ⊎ IsFailed (run_job randint pattern w job))
  unfolding run_job try_perform_job
  run_job_cases w job = settle_cases w _ _ (finished w (perform w.call job))
