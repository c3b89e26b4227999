-- ===== src/Cron/Tests.antt =====
-- The cron runner at a concrete input.
use others_addons.Base.{ℕ, ◌≡◌, refl, Bool, false, [], ◌∷◌, none, some, arith}
use others_addons.Jobs.State.{pending, wait_dependencies}
use others_addons.Jobs.Job.{Job}
use others_addons.Jobs.Run.{returns}
use others_addons.Jobs.Dependents.{Table}
use others_addons.Cron.{Run, acquire_one_job, job_runner}
use others_addons.Cron.Idle.{job_runner-idle}

abbrev low : ℕ → ℕ → ℕ
low a b = a

abbrev new_job : Job
new_job = record {
  state = pending;
  retry = 0;
  max_retries = 5;
  eta = none;
  date_enqueued = none;
  date_started = none;
  date_done = none;
  date_cancelled = none;
  result = none;
  exc_name = none;
  exc_message = none;
  exc_info = none;
  worker_pid = none;
}

-- Job 2 waits for job 1.
abbrev two_rows : Table
two_rows =
    record {
      uuid = 1;
      graph_uuid = some 9;
      depends_on = [];
      reverse_depends_on = 2 ∷ [];
      job = new_job;
    }
    ∷ record {
      uuid = 2;
      graph_uuid = some 9;
      depends_on = 1 ∷ [];
      reverse_depends_on = [];
      job = record new_job { state = wait_dependencies };
    }
    ∷ []

abbrev succeeds : ℕ → Run
succeeds uuid = record { call = returns none; store_error = none; traceback = "" }

abbrev unlocked : ℕ → Bool
unlocked uuid = false

job_runner-idle_example :
    acquire_one_job 100 unlocked
      (job_runner low [] 2 (λ n. 100) 7 unlocked succeeds (λ n t. t) two_rows)
    ≡ none
job_runner-idle_example =
    job_runner-idle low [] 2 100 7 (λ n. 100) unlocked succeeds (λ n t. t) two_rows (λ n. refl)
      (λ n t. omega arith) (omega arith)
