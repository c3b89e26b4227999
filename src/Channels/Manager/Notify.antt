-- ===== src/Channels/Manager/Notify.antt =====
-- The jobs of a `ChannelManager`: `notify`, `remove_job` and `remove_db`
-- (queue_job/jobrunner/channels.py).
use Prim.Native.String.{String}
use text.Mathlib.Text.{◌==◌ as str_eq}
use others_addons.Base.{
  ℕ, suc, Bool, true, false, not, ◌&&◌, List, [], ◌∷◌, Option, none, some, if◌then◌else◌, ◌==◌,
}
use others_addons.Jobs.State.{State}
use others_addons.Channels.Job.{ChannelJob, SortingKey, Jobs}
use others_addons.Channels.Channel.{remove}
use others_addons.Channels.Channel.Transition.{transition}
use others_addons.Channels.Tree.{Tree, apply_at}
use others_addons.Channels.Manager.{get_channel_by_name, found, not_found}

-- `_jobs_by_uuid` refers weakly to the objects of the jobs; the next one that is made has the
-- reference `next`.
pub record Manager : Type 0 where
  pub root : Tree
  pub store : Jobs
  pub by_uuid : List (ℕ × ℕ)
  pub next : ℕ

unfoldable pub get_job : ℕ → List (ℕ × ℕ) → Option ℕ
get_job uuid [] = none
get_job uuid ((key, job) ∷ l) = let rest = get_job uuid l in if key == uuid then some job else rest

-- `del self._jobs_by_uuid[uuid]`
unfoldable pub del_job : ℕ → List (ℕ × ℕ) → List (ℕ × ℕ)
del_job uuid [] = []
del_job uuid ((key, job) ∷ l) =
    let rest = del_job uuid l in if key == uuid then rest else (key, job) ∷ rest

abbrev pub same_path : List String → List String → Bool
same_path [] [] = true
same_path (a ∷ p) (b ∷ q) = str_eq a b && same_path p q
same_path _ _ = false

abbrev pub same_eta : Option ℕ → Option ℕ → Bool
same_eta none none = true
same_eta (some a) (some b) = a == b
same_eta _ _ = false

-- None of the properties that influence the order has changed.
abbrev pub is_unchanged : ChannelJob → ChannelJob → Bool
is_unchanged job new =
    job.key.seq == new.key.seq
    && (job.key.priority == new.key.priority
        && (same_eta job.key.eta new.key.eta && same_path job.channel new.channel))

-- The invariant properties, which `notify` asserts.
abbrev pub is_same_job : ChannelJob → ChannelJob → Bool
is_same_job job new = job.db_name == new.db_name && job.key.date_created == new.key.date_created

-- `job.channel.remove(job)` and the `del` behind it.
unfoldable pub remove_ref : ℕ → Manager → Manager
unfolding apply_at remove del_job
remove_ref job m = record m {
  root = (apply_at (m.store job).channel (remove job) m.root []).0;
  by_uuid = del_job (m.store job).uuid m.by_uuid;
}

unfoldable pub remove_job : ℕ → Manager → Manager
unfolding remove_ref get_job
remove_job uuid m = elim (get_job uuid m.by_uuid) [ none ↦ m | some job ↦ remove_ref job m ]

-- The loop over a copy of the values.
unfoldable pub remove_jobs : ℕ → List (ℕ × ℕ) → Manager → Manager
unfolding remove_ref
remove_jobs db_name [] m = m
remove_jobs db_name ((uuid, job) ∷ values) m =
    remove_jobs db_name values (if (m.store job).db_name == db_name then remove_ref job m else m)

unfoldable pub remove_db : ℕ → Manager → Manager
unfolding remove_jobs
remove_db db_name m = remove_jobs db_name m.by_uuid m

-- `ChannelJob(...)` and its entry.
unfoldable pub add_job : ChannelJob → Manager → Manager
add_job job m = record m {
  store = λ o. if o == m.next then job else m.store o;
  by_uuid = (job.uuid, m.next) ∷ del_job job.uuid m.by_uuid;
  next = suc m.next;
}

-- The state transition, in the channel of the job.
unfoldable pub move_job : Option State → ℕ → Manager → Manager
unfolding apply_at transition
move_job state job m = record m {
  root = (apply_at (m.store job).channel (transition m.store state job) m.root []).0;
}

-- The weak dictionary without the objects that nothing else refers to any more.
unfoldable pub sweep : (ℕ → Bool) → List (ℕ × ℕ) → List (ℕ × ℕ)
unfolding del_job
sweep alive [] = []
sweep alive ((uuid, job) ∷ l) =
    let rest = sweep alive l in if alive job then (uuid, job) ∷ rest else del_job uuid rest

-- `notify` behind the lookup of the channel; `none` is an `AssertionError`.
unfoldable pub notify_job : Option State → ChannelJob → Manager → Option Manager
unfolding get_job remove_job add_job move_job
notify_job state new m = elim (get_job new.uuid m.by_uuid) [
  | none ↦ some (move_job state m.next (add_job new m))
  | some job ↦
      let removed = remove_job new.uuid m in
      if not (is_same_job (m.store job) new)
      then none
      else if is_unchanged (m.store job) new
      then some (move_job state job m)
      else some (move_job state removed.next (add_job new removed))
]

abbrev pub swept : (ℕ → Bool) → Option Manager → Option Manager
swept alive none = none
swept alive (some m) = some (record m { by_uuid = sweep alive m.by_uuid })

-- An unknown state, which is logged as an error, is none of the arguments. `alive` tells what Python finds
-- referred to when the call ends: the jobs that a channel holds are, and a job that was marked as done is not.
unfoldable pub notify :
    (ℕ → Bool) → ℕ → List String → ℕ → SortingKey → Option State → Manager → Option Manager
unfolding get_channel_by_name notify_job sweep
notify alive db_name channel_name uuid key state m =
    elim (get_channel_by_name false true channel_name m.root) [
      | not_found ↦ none
      | found path root ↦ swept alive (
          notify_job state (record { db_name = db_name; channel = path; uuid = uuid; key = key })
            (record m { root = root }))
    ]
