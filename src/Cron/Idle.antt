-- ===== src/Cron/Idle.antt =====
-- The cron runner ends (queue_job_cron_jobrunner/models/queue_job.py, `_job_runner`).
use Prim.Native.String.{String}
use others_addons.Base.{
  ℕ, zero, suc, ◌+◌, ◌≤◌, ◌<◌, ◌≡◌, refl, sym, ap, subst, ◌∙◌, inl, inr, Bool, true, false, not,
  ◌&&◌, ◌||◌, List, [], ◌∷◌, Option, none, some, if◌then◌else◌, ◌==◌, Bool-cases, Option-cases, In,
  arith,
}
use others_addons.Jobs.State.{State, pending, wait_dependencies, done, is_state}
use others_addons.Jobs.Job.{Job, set_pending, set_started, set_done, eta_after}
use others_addons.Jobs.Retry.{Pattern, postpone, get_retry_seconds, choose_seconds}
use others_addons.Jobs.Run.{Error, retryable, failed_job, operational, other, perform}
use others_addons.Jobs.Dependents.{
  Row, Table, put, change_job, enqueue_waiting, release, is_released, states_of, find_job,
}
use others_addons.Cron.{
  is_past, acquire_one_job, Run, and_done, retry_later, handle, process_job, process, job_runner,
}

-- A job that the runner may still come to.
abbrev pub is_open : ℕ → Job → Bool
is_open now job =
    (is_state job.state pending || is_state job.state wait_dependencies) && is_past now job.eta

abbrev pub count_open : ℕ → Table → ℕ
count_open now [] = 0
count_open now (r ∷ t) = (if is_open now r.job then 1 else 0) + count_open now t

-- Changes that open no job.
abbrev OpensNone : ℕ → (Row → Job) → Type 0
OpensNone now f = (r : Row) → is_open now (f r) ≡ true → is_open now r.job ≡ true

count_open-put :
    (now : ℕ) (f : Row → Job) (t : Table)
    → OpensNone now f
    → count_open now (put f t) ≤ count_open now t
unfolding put
count_open-put now f [] h = omega arith
count_open-put now f (r ∷ t) h = ground (arith, h r, count_open-put now f t h)

closes_one :
    (now : ℕ) (f : Row → Job) (t : Table) (r : Row)
    → OpensNone now f
    → In r t
    → is_open now r.job ≡ true
    → is_open now (f r) ≡ false
    → count_open now (put f t) < count_open now t
unfolding put
closes_one now f [] r h m o c = absurd m
closes_one now f (x ∷ t) r h (inl e) o c =
    let o' = ap (λ y. is_open now y.job) (sym e) ∙ o in
    let c' = ap (λ y. is_open now (f y)) (sym e) ∙ c in
    ground (arith, o', c', count_open-put now f t h)
closes_one now f (x ∷ t) r h (inr m) o c = ground (arith, h x, closes_one now f t r h m o c)

abbrev IsTaken : ℕ → Table → Option Row → Type 0
IsTaken now t none = Unit {0}
IsTaken now t (some r) = In r t × (is_open now r.job ≡ true)

acquire_one_job-In :
    (now : ℕ) (locked : ℕ → Bool) (t : Table) (r : Row)
    → acquire_one_job now locked t ≡ some r
    → In r t × (is_open now r.job ≡ true)
unfolding acquire_one_job
acquire_one_job-In now locked [] r e = absurd (cc)
acquire_one_job-In now locked (x ∷ t) r e =
    elim (Bool-cases
      (is_state x.job.state pending && (is_past now x.job.eta && not (locked x.uuid)))) [
        | inl taken ↦ subst (IsTaken now (x ∷ t)) (rw taken at e) (inl refl, ground (arith, taken))
        | inr left ↦ let (m, o) = acquire_one_job-In now locked t r (rw left at e) in (inr m, o)
      ]

released_waits :
    (required : State) (uuid : ℕ) (t : Table) (r : Row)
    → is_released required uuid t r ≡ true
    → is_state r.job.state wait_dependencies ≡ true
unfolding is_released
released_waits required uuid t r h = elim (Option-cases (find_job uuid t)) [
  | inl absent ↦ absurd (ground (arith, rw (absent, is_released) at h))
  | inr (job, e) ↦ ground (arith, rw (e, is_released) at h)
]

enqueue_waiting-count :
    (now uuid : ℕ) (t : Table) → count_open now (enqueue_waiting uuid t) ≤ count_open now t
unfolding enqueue_waiting release
enqueue_waiting-count now uuid t = count_open-put now _ t (λ r o.
    elim (Bool-cases (is_released done uuid t r)) [
      | inl freed ↦ ground (arith, rw freed at o, released_waits done uuid t r freed)
      | inr kept ↦ rw kept at o
    ])

module _ (randint : ℕ → ℕ → ℕ) (pattern : Pattern) where
  retry_later-closed :
      (now : ℕ) (parents : List State) (message : String) (job : Job)
      → is_open now (retry_later randint pattern now parents message 5 job) ≡ false
  unfolding retry_later postpone get_retry_seconds choose_seconds set_pending eta_after
  retry_later-closed now parents message job = ground arith

  error-closed :
      (now : ℕ) (parents : List State) (traceback : String) (job : Job) (error : Error)
      → is_open now (handle randint pattern now parents traceback (job, some error)) ≡ false
  unfolding handle
  error-closed now parents traceback job (retryable message seconds ignore_retry) =
      retry_later-closed now parents message job
  error-closed now parents traceback job (operational true name message) =
      retry_later-closed now parents message job
  error-closed now parents traceback job (operational false name message) = refl
  error-closed now parents traceback job (failed_job message) = refl
  error-closed now parents traceback job (other name message) = refl

  handle-closed :
      (now : ℕ) (parents : List State) (traceback : String) (store_error : Option Error)
      (performed : Job × Option Error)
      → is_open now
          (handle randint pattern now parents traceback (and_done now store_error performed))
        ≡ false
  unfolding handle set_done
  handle-closed now parents traceback store_error (job, some error) =
      error-closed now parents traceback job error
  handle-closed now parents traceback (some error) (job, none) =
      error-closed now parents traceback (set_done now none job) error
  handle-closed now parents traceback none (job, none) = refl

  process_job-closed :
      (now pid : ℕ) (run : Run) (parents : List State) (job : Job)
      → is_open now (process_job randint pattern now pid run parents job) ≡ false
  unfolding process_job
  process_job-closed now pid run parents job =
      handle-closed now parents run.traceback run.store_error
        (perform run.call (set_started now pid job))

  process-count :
      (now pid : ℕ) (locked : ℕ → Bool) (runs : ℕ → Run) (t : Table) (r : Row)
      → acquire_one_job now locked t ≡ some r
      → count_open now (process randint pattern now pid runs r.uuid t) < count_open now t
  unfolding process change_job
  process-count now pid locked runs t r e =
      let (m, o) = acquire_one_job-In now locked t r e in
      let g : Row → Job =
        λ x. process_job randint pattern now pid (runs r.uuid) (states_of x.depends_on t) x.job in
      let closed : (x : Row) → is_open now (g x) ≡ false =
        λ x. process_job-closed now pid (runs r.uuid) (states_of x.depends_on t) x.job in
      let f : Row → Job = λ x. if x.uuid == r.uuid then g x else x.job in
      let opens_none : OpensNone now f = λ x h. elim (Bool-cases (x.uuid == r.uuid)) [
        | inl same ↦ absurd (ground (arith, rw same at h, closed x))
        | inr away ↦ rw away at h
      ] in
      let self : (r.uuid == r.uuid) ≡ true = ground arith in
      let fewer = closes_one now f t r opens_none m o (rw self (closed r)) in
      omega (arith, fewer, enqueue_waiting-count now r.uuid (put f t))

  -- While the clock stands still, and neither the methods of the jobs nor others make
  -- more jobs that are pending or wait for their dependencies and whose eta is past due, the cron
  -- runner ends, if there is fuel for those there are, with no job left that it could acquire at that time.
  pub job_runner-idle :
      (fuel now pid : ℕ) (clock : ℕ → ℕ) (locked : ℕ → Bool) (runs : ℕ → Run)
      (changes : ℕ → Table → Table) (t : Table)
      → ((n : ℕ) → clock n ≡ now)
      → ((n : ℕ) (t : Table) → count_open now (changes n t) ≤ count_open now t)
      → count_open now t ≤ fuel
      → acquire_one_job now locked (job_runner randint pattern fuel clock pid locked runs changes t)
        ≡ none
  unfolding job_runner
  job_runner-idle zero now pid clock locked runs changes t same fewer h =
      elim (Option-cases (acquire_one_job now locked t)) [
        | inl idle ↦ idle
        | inr (r, e) ↦ absurd (omega (arith, h, process-count now pid locked runs t r e))
      ]
  job_runner-idle (suc fuel) now pid clock locked runs changes t same fewer h =
      let at = ap (λ n. acquire_one_job n locked t) (same fuel) in
      elim (Option-cases (acquire_one_job now locked t)) [
        | inl idle ↦ rw (at ∙ idle, job_runner) idle
        | inr (r, e) ↦
            let next = process randint pattern (clock fuel) pid runs r.uuid t in
            let less : count_open now next < count_open now t =
              subst
                (λ n.
                  count_open now (process randint pattern n pid runs r.uuid t) < count_open now t)
                (sym (same fuel)) (process-count now pid locked runs t r e) in
            rw (at ∙ e, job_runner)
              (job_runner-idle fuel now pid clock locked runs changes (changes fuel next) same fewer
                (omega (arith, h, fewer fuel next, less)))
      ]
