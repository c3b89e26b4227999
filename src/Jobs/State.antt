-- ===== src/Jobs/State.antt =====
-- The states of a job (queue_job/job.py, `STATES`), and tests on them.
use others_addons.Base.{Bool, true, false, not, ◌||◌, List, [], ◌∷◌}

pub data State : Type 0 where
  wait_dependencies pending enqueued started done cancelled failed : State

abbrev pub is_state : State → State → Bool
is_state wait_dependencies wait_dependencies = true
is_state pending pending = true
is_state enqueued enqueued = true
is_state started started = true
is_state done done = true
is_state cancelled cancelled = true
is_state failed failed = true
is_state _ _ = false

-- `any(j.state != DONE for j in jobs)`
unfoldable pub any_not_done : List State → Bool
any_not_done [] = false
any_not_done (s ∷ states) = not (is_state s done) || any_not_done states
