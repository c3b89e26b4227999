-- ===== src/Jobs/Dependents.antt =====
-- Jobs that depend on other jobs: `enqueue_waiting` and `cancel_dependent_jobs` (queue_job/job.py),
-- the buttons that change the state of a job (queue_job/models/queue_job.py), and
-- `_enqueue_dependent_jobs` (queue_job/controllers/main.py).
pub mod Rows
pub mod Waiting
pub mod Buttons
pub mod Attempts
use Prim.Native.String.{String}
use others_addons.Base.{
  ℕ, zero, suc, ◌+◌, Bool, true, false, not, ◌&&◌, ◌||◌, List, [], ◌∷◌, Option, none, some,
  if◌then◌else◌, ◌==◌, leb, contains,
}
use others_addons.Jobs.State.{
  State, wait_dependencies, pending, enqueued, done, cancelled, failed, is_state,
}
use others_addons.Jobs.Job.{Job, set_pending, set_done, set_cancelled}
use others_addons.Jobs.Run.{Error, operational}

-- A row of the table `queue_job`, with the links of its column `dependencies`.
pub record Row : Type 0 where
  pub uuid : ℕ
  pub graph_uuid : Option ℕ
  pub depends_on : List ℕ
  pub reverse_depends_on : List ℕ
  pub job : Job

abbrev pub Table : Type 0
Table = List Row

-- Every change of the table is one of the jobs of its rows.
unfoldable pub put : (Row → Job) → Table → Table
put f [] = []
put f (r ∷ t) = record r { job = f r } ∷ put f t

unfoldable pub find_job : ℕ → Table → Option Row
find_job uuid [] = none
find_job uuid (r ∷ t) = let rest = find_job uuid t in if r.uuid == uuid then some r else rest

-- Equality in SQL: that with `NULL` does not hold.
abbrev pub same_graph : Option ℕ → Option ℕ → Bool
same_graph (some a) (some b) = a == b
same_graph _ _ = false

-- Whether a row joins another as `parent`.
abbrev pub is_parent : Row → Row → Bool
is_parent p child = same_graph p.graph_uuid child.graph_uuid && contains p.uuid child.depends_on

-- `array_agg(parent.state)` of a child.
unfoldable pub parent_states : Table → Row → List State
parent_states [] child = []
parent_states (p ∷ t) child =
    let rest = parent_states t child in if is_parent p child then p.job.state ∷ rest else rest

-- `state = ALL(parent_states)`, for a child that the inner join keeps: it has a parent.
unfoldable pub all_states : State → List State → Bool
all_states state [] = true
all_states state (s ∷ states) = is_state s state && all_states state states

abbrev pub is_nil : List State → Bool
is_nil [] = true
is_nil (s ∷ states) = false

-- The rows that the query on the dependent jobs of a job updates.
unfoldable pub is_released : State → ℕ → Table → Row → Bool
unfolding find_job parent_states all_states
is_released required uuid t child = elim (find_job uuid t) [
  | none ↦ false
  | some job ↦
      same_graph child.graph_uuid job.graph_uuid
      && (contains child.uuid job.reverse_depends_on
          && (not (is_nil (parent_states t child))
              && (all_states required (parent_states t child)
                  && is_state child.job.state wait_dependencies)))
]

unfoldable pub release : State → State → ℕ → Table → Table
unfolding is_released put
release state required uuid t =
    put
      (λ child.
        if is_released required uuid t child then record child.job { state = state } else child.job)
      t

unfoldable pub enqueue_waiting : ℕ → Table → Table
unfolding release
enqueue_waiting uuid t = release pending done uuid t

unfoldable pub cancel_dependent_jobs : ℕ → Table → Table
unfolding release
cancel_dependent_jobs uuid t = release cancelled cancelled uuid t

-- The states of the jobs that `load_many` finds.
unfoldable pub states_of : List ℕ → Table → List State
states_of uuids [] = []
states_of uuids (r ∷ t) =
    let rest = states_of uuids t in if contains r.uuid uuids then r.job.state ∷ rest else rest

-- `Job.load`, a change of the job, and `store`.
unfoldable pub change_job : ℕ → (Row → Job) → Table → Table
unfolding put
change_job uuid f t = put (λ r. if r.uuid == uuid then f r else r.job) t

-- `_change_job_state` of one record; `none` is its `ValueError`.
unfoldable pub change_job_state : ℕ → State → Option String → ℕ → Table → Option Table
unfolding enqueue_waiting cancel_dependent_jobs change_job states_of
change_job_state now done result uuid t =
    some (enqueue_waiting uuid (change_job uuid (λ r. set_done now result r.job) t))
change_job_state now pending result uuid t =
    some (change_job uuid (λ r. set_pending (states_of r.depends_on t) result true r.job) t)
change_job_state now cancelled result uuid t =
    some (cancel_dependent_jobs uuid (change_job uuid (λ r. set_cancelled now result r.job) t))
change_job_state now _ result uuid t = none

-- The `for` loop of `_change_job_state`.
unfoldable pub change_job_states : ℕ → State → Option String → List ℕ → Table → Option Table
unfolding change_job_state
change_job_states now state result [] t = some t
change_job_states now state result (uuid ∷ uuids) t =
    elim (change_job_state now state result uuid t) [
      | none ↦ none
      | some t' ↦ change_job_states now state result uuids t'
    ]

-- `self.filtered`, on the states that the records have before any changes.
unfoldable pub filtered : (State → Bool) → List ℕ → Table → List ℕ
filtered is_from [] t = []
filtered is_from (uuid ∷ uuids) t =
    let rest = filtered is_from uuids t in
    elim (find_job uuid t) [
      | none ↦ rest
      | some r ↦ if is_from r.job.state then uuid ∷ rest else rest
    ]

abbrev pub is_unfinished : State → Bool
is_unfinished s =
    is_state s wait_dependencies
    || (is_state s pending || (is_state s enqueued || is_state s failed))

abbrev pub is_finished : State → Bool
is_finished s = is_state s failed || (is_state s done || is_state s cancelled)

-- The texts of the results are arguments.
unfoldable pub button_done : ℕ → String → List ℕ → Table → Option Table
unfolding change_job_states filtered
button_done now result uuids t =
    change_job_states now done (some result) (filtered is_unfinished uuids t) t

unfoldable pub button_cancelled : ℕ → String → List ℕ → Table → Option Table
unfolding change_job_states filtered
button_cancelled now result uuids t =
    change_job_states now cancelled (some result) (filtered is_unfinished uuids t) t

unfoldable pub requeue : ℕ → List ℕ → Table → Option Table
unfolding change_job_states filtered
requeue now uuids t = change_job_states now pending none (filtered is_finished uuids t) t

-- `DEPENDS_MAX_TRIES_ON_CONCURRENCY_FAILURE`
abbrev pub depends_max_tries : ℕ
depends_max_tries = 5

abbrev pub is_concurrency : Error → Bool
is_concurrency (operational concurrency name message) = concurrency
is_concurrency _ = false

-- The `while` loop of `_enqueue_dependent_jobs`. `attempt` gives the outcome of `enqueue_waiting`
-- at each count of `tries`. The result is the count of attempts that were made, and the exception
-- that is raised, if any. The fuel is the tries that are left and one; `none` is a loop that has run
-- out of it.
unfoldable pub retry_loop : (ℕ → Option Error) → ℕ → ℕ → Option (ℕ × Option Error)
retry_loop attempt zero tries = none
retry_loop attempt (suc fuel) tries =
    let rest = retry_loop attempt fuel (suc tries) in
    elim (attempt tries) [
      | none ↦ some (suc tries, none)
      | some error ↦
          if not (is_concurrency error)
          then some (suc tries, some error)
          else if leb depends_max_tries tries
          then some (suc tries, some error)
          else rest
    ]

unfoldable pub enqueue_dependent_jobs : List ℕ → (ℕ → Option Error) → Option (ℕ × Option Error)
unfolding retry_loop
enqueue_dependent_jobs [] attempt = some (0, none)
enqueue_dependent_jobs (uuid ∷ uuids) attempt = retry_loop attempt (suc depends_max_tries) 0
