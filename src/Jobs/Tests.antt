-- ===== src/Jobs/Tests.antt =====
-- The theorems on running jobs at concrete inputs.

use others_addons.Base.{
  ℕ, zero, suc, ◌≡◌, refl, ◌⊎◌, inl, ◌<◌, true, false, List, [], ◌∷◌, none, some, Option, contains,
  In_elim, arith,
}
use others_addons.Jobs.State.{pending, failed, wait_dependencies, is_state}
use others_addons.Jobs.Job.{Job, set_failed, set_done}
use others_addons.Jobs.Retry.{exactly, between, Pattern, retry_interval, choose_seconds}
use others_addons.Jobs.Retry.Pattern.{Chooses, choose_seconds-Chooses}
use others_addons.Jobs.Run.{
  World, returns, raises, Error, retryable, operational, other, run_job, try_perform_job, perform,
  finish_job, settle, handle,
}
use others_addons.Jobs.Run.Outcome.{IsDone, IsPostponed, IsFailed, run_job_cases, waiting_state}
use others_addons.Jobs.Run.Retries.{concurrency_error_waits}
use others_addons.Jobs.Dependents.{
  Row, Table, button_done, button_cancelled, requeue, enqueue_dependent_jobs,
}
use others_addons.Jobs.Dependents.Rows.{IsLinked, IsLink}
use others_addons.Jobs.Dependents.Waiting.{IsBlocked}
use others_addons.Jobs.Dependents.Buttons.{IsSound, Leaves, buttons-IsSound}
use others_addons.Jobs.Dependents.Attempts.{Stops, enqueue_dependent_jobs-Stops}

-- A `randint` that takes the lower bound.
abbrev low : ℕ → ℕ → ℕ
low a b = a

-- `{5: 20, 1: (1, 10)}`
abbrev pattern : Pattern
pattern = (5, exactly 20) ∷ (1, between 1 10) ∷ []

chooses :
    (choose_seconds pattern 0 none ≡ exactly 600)
    × (choose_seconds pattern 3 none ≡ between 1 10)
    × (choose_seconds pattern 7 none ≡ exactly 20)
unfolding choose_seconds
chooses = (refl, refl, refl)

choose_seconds-Chooses_example :
    ((seconds : ℕ) → 0 < seconds → choose_seconds pattern 3 (some seconds) ≡ exactly seconds)
    × Chooses 3 retry_interval pattern (choose_seconds pattern 3 none)
    × (choose_seconds pattern 3 (some 0) ≡ choose_seconds pattern 3 none)
choose_seconds-Chooses_example = choose_seconds-Chooses pattern 3

abbrev new_job : Job
new_job = record {
  state = pending;
  retry = 0;
  max_retries = 2;
  eta = none;
  date_enqueued = none;
  date_started = none;
  date_done = none;
  date_cancelled = none;
  result = none;
  exc_name = none;
  exc_message = none;
  exc_info = none;
  worker_pid = none;
}

abbrev later : World
later = record {
  now = 100;
  call = raises (retryable "busy" none false);
  flush_error = none;
  commit_error = none;
  parents = [];
  traceback = "";
  dependents_error = none;
}

run_job_cases_example :
    IsDone later (run_job low pattern later new_job)
    ⊎ (IsPostponed later (run_job low pattern later new_job)
        ⊎ IsFailed (run_job low pattern later new_job))
run_job_cases_example = run_job_cases low pattern later new_job

abbrev conflict : World
conflict = record later {
  call = returns (some "sent");
  commit_error =
      some (operational true "psycopg2.errors.SerializationFailure" "could not serialize access");
}

-- The conflict is found at the commit.
concurrency_error_waits_example :
    (let r = run_job low pattern conflict new_job in
      (r.stored.state ≡ waiting_state [])
      × (r.stored.retry ≡ 1)
      × (r.stored.eta ≡ some 105)
      × (r.raised ≡ none))
unfolding try_perform_job perform
concurrency_error_waits_example =
    concurrency_error_waits low pattern conflict new_job "psycopg2.errors.SerializationFailure"
      "could not serialize access" refl

abbrev lost : World
lost = record later {
  call = returns (some "sent");
  commit_error = some (other "psycopg2.errors.ForeignKeyViolation" "missing row");
}

failed_with_date_done :
    (let r = run_job low pattern lost new_job in
      (r.stored.state ≡ failed) × (r.stored.date_done ≡ some 100))
unfolding run_job try_perform_job perform finish_job settle handle set_failed set_done
failed_with_date_done = (refl, refl)

-- Job 1 has failed, and job 2 waits for it.
abbrev failed_row : Row
failed_row = record {
  uuid = 1;
  graph_uuid = some 9;
  depends_on = [];
  reverse_depends_on = 2 ∷ [];
  job = record new_job { state = failed };
}

abbrev waiting_row : Row
waiting_row = record {
  uuid = 2;
  graph_uuid = some 9;
  depends_on = 1 ∷ [];
  reverse_depends_on = [];
  job = record new_job { state = wait_dependencies };
}

abbrev two_rows : Table
two_rows = failed_row ∷ waiting_row ∷ []

two_rows-IsLinked : IsLinked two_rows
unfolding contains
two_rows-IsLinked = record {
  unique = λ r s m n.
      In_elim (λ r. r.uuid ≡ s.uuid → r ≡ s) two_rows
        (
          In_elim (λ s. 1 ≡ s.uuid → failed_row ≡ s) two_rows
              ((λ e. refl), ((λ e. absurd (omega (arith, e))), tt)) s n,
          (
            In_elim (λ s. 2 ≡ s.uuid → waiting_row ≡ s) two_rows
                ((λ e. absurd (omega (arith, e))), ((λ e. refl), tt)) s n,
            tt,
          ),
        )
        r m;
  linked = λ p child m n.
      In_elim (λ p. IsLink p child) two_rows
        (
          In_elim (λ child. IsLink failed_row child) two_rows
              ((λ d. absurd (ground (arith, d))), ((λ d. (refl, refl, refl)), tt)) child n,
          (
            In_elim (λ child. IsLink waiting_row child) two_rows
                ((λ d. absurd (ground (arith, d))), ((λ d. absurd (ground (arith, d))), tt)) child
                n,
            tt,
          ),
        )
        p m;
}

two_rows-IsSound : IsSound two_rows
unfolding contains
two_rows-IsSound = (
  two_rows-IsLinked,
  In_elim (λ child. is_state child.job.state wait_dependencies ≡ true → IsBlocked two_rows child)
      two_rows ((λ e. absurd (ground (arith, e))), ((λ e. (failed_row, inl refl, refl, refl)), tt)),
)

buttons-IsSound_example :
    Leaves (button_done 100 "done by hand" (1 ∷ []) two_rows)
    × Leaves (button_cancelled 100 "done by hand" (1 ∷ []) two_rows)
    × Leaves (requeue 100 (1 ∷ []) two_rows)
buttons-IsSound_example = buttons-IsSound 100 "done by hand" (1 ∷ []) two_rows two_rows-IsSound

-- The first attempt meets a conflict, the second goes through.
abbrev second_succeeds : ℕ → Option Error
second_succeeds zero = some (operational true "psycopg2.errors.SerializationFailure" "conflict")
second_succeeds (suc n) = none

abbrev dependents : List ℕ
dependents = 2 ∷ []

enqueue_dependent_jobs-Stops_example :
    ((dependents ≡ []) × (enqueue_dependent_jobs dependents second_succeeds ≡ some (0, none)))
    ⊎ ((last : ℕ) × Stops second_succeeds 0 last
        × (enqueue_dependent_jobs dependents second_succeeds
            ≡ some (suc last, second_succeeds last)))
enqueue_dependent_jobs-Stops_example = enqueue_dependent_jobs-Stops dependents second_succeeds

two_attempts : enqueue_dependent_jobs dependents second_succeeds ≡ some (2, none)
unfolding enqueue_dependent_jobs
two_attempts = refl
