-- ===== src/Jobs/Dependents/Buttons.antt =====
-- The buttons of a job leave no job waiting for jobs that are all done
-- (queue_job/models/queue_job.py, `_change_job_state`).
use Prim.Native.String.{String}
use others_addons.Base.{ℕ, ◌≡◌, refl, Bool, true, ◌||◌, List, [], ◌∷◌, Option, none, some, arith}
use others_addons.Jobs.State.{
  State, wait_dependencies, pending, enqueued, started, done, cancelled, failed, is_state,
}
use others_addons.Jobs.Dependents.{
  Table, release, enqueue_waiting, cancel_dependent_jobs, change_job,
}
use others_addons.Jobs.Dependents.Rows.{IsLinked, put-IsLinked}
use others_addons.Jobs.Dependents.{
  change_job_state, change_job_states, button_done, button_cancelled, requeue, filtered,
  is_unfinished, is_finished,
}
use others_addons.Jobs.Dependents.Waiting.{
  WaitsForSome, release-WaitsForSome, set_done-IsBlocked, set_cancelled-WaitsForSome,
  set_pending-WaitsForSome,
}

-- Links that agree, and rows that wait for some parent that is not done.
abbrev pub IsSound : Table → Type 0
IsSound t = IsLinked t × WaitsForSome t

-- A change that raises nothing and leaves a sound table.
abbrev pub Leaves : Option Table → Type 0
Leaves changed_table = (t : Table) × (changed_table ≡ some t) × IsSound t

abbrev is_supported : State → Bool
is_supported state = is_state state done || (is_state state pending || is_state state cancelled)

change_job_state-Leaves :
    (now : ℕ) (state : State) (result : Option String) (uuid : ℕ) (t : Table)
    → is_supported state ≡ true
    → IsSound t
    → Leaves (change_job_state now state result uuid t)
unfolding change_job_state enqueue_waiting cancel_dependent_jobs change_job release
change_job_state-Leaves now done result uuid t h (l, w) = (
  _,
  refl,
  (
    put-IsLinked _ _ (put-IsLinked _ t l),
    release-WaitsForSome pending done uuid _ refl refl (set_done-IsBlocked now uuid t l w result),
  ),
)
change_job_state-Leaves now pending result uuid t h (l, w) =
    (_, refl, (put-IsLinked _ t l, set_pending-WaitsForSome now uuid t l w result))
change_job_state-Leaves now cancelled result uuid t h (l, w) = (
  _,
  refl,
  (put-IsLinked _ _ (put-IsLinked _ t l), set_cancelled-WaitsForSome now uuid t l w result),
)
change_job_state-Leaves now wait_dependencies result uuid t h s = absurd (ground (arith, h))
change_job_state-Leaves now enqueued result uuid t h s = absurd (ground (arith, h))
change_job_state-Leaves now started result uuid t h s = absurd (ground (arith, h))
change_job_state-Leaves now failed result uuid t h s = absurd (ground (arith, h))

change_job_states-Leaves :
    (now : ℕ) (state : State) (result : Option String) (uuids : List ℕ) (t : Table)
    → is_supported state ≡ true
    → IsSound t
    → Leaves (change_job_states now state result uuids t)
unfolding change_job_states
change_job_states-Leaves now state result [] t h s = (t, refl, s)
change_job_states-Leaves now state result (uuid ∷ uuids) t h s =
    let (t', e, s') = change_job_state-Leaves now state result uuid t h s in
    rw (e, change_job_states) (change_job_states-Leaves now state result uuids t' h s')

-- If the links of the jobs agree and every job that waits for its dependencies has one that is not
-- done, then the same holds after any jobs were marked as done, cancelled or requeued by their
-- buttons, which raise nothing: no job is left waiting for jobs that are all done.
pub buttons-IsSound :
    (now : ℕ) (result : String) (uuids : List ℕ) (t : Table)
    → IsSound t
    → Leaves (button_done now result uuids t)
      × Leaves (button_cancelled now result uuids t)
      × Leaves (requeue now uuids t)
unfolding button_done button_cancelled requeue
buttons-IsSound now result uuids t s = (
  change_job_states-Leaves now done (some result) (filtered is_unfinished uuids t) t refl s,
  change_job_states-Leaves now cancelled (some result) (filtered is_unfinished uuids t) t refl s,
  change_job_states-Leaves now pending none (filtered is_finished uuids t) t refl s,
)
