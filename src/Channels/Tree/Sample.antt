-- ===== src/Channels/Tree/Sample.antt =====
-- The runs of the doc strings of `ChannelManager` (queue_job/jobrunner/channels.py), as tests.
use Prim.Native.String.{String}
use others_addons.Base.{
  ℕ, ◌≡◌, refl, false, List, [], ◌∷◌, Option, none, some, if◌then◌else◌, leb, pos, contains,
  discard, add,
}
use others_addons.Channels.PriorityQueue
use others_addons.Channels.Job.{ChannelJob, Jobs, lt_ignoring_eta, before, set_no_eta}
use others_addons.Channels.Queue
use others_addons.Channels.Channel.{
  create, has_capacity, set_done, set_pending, set_running, set_failed, yield_jobs,
}
use others_addons.Channels.Tree.{
  Tree, node, child, leaf, apply_at, get_jobs_to_run, get_wakeup_time,
}

abbrev pub job : String → Option ℕ → ℕ → ℕ → ChannelJob
job channel eta priority seq = record {
  db_name = 0;
  channel = channel ∷ [];
  uuid = seq;
  key = record { eta = eta; priority = priority; date_created = 0; seq = seq };
}

-- References 1 to 6 are the jobs A1 to A6, 11 and 12 are B1 and B2.
abbrev pub sample_jobs : Jobs
sample_jobs o = if leb o 10 then job "A" none 10 o else job "B" none 5 o

abbrev pub sample_tree : Tree
sample_tree = node (create "root" (some (pos 4)) false 0) (
    child (node (create "A" (some (pos 4)) false 0) leaf)
      (child (node (create "B" (some (pos 1)) false 0) leaf) leaf))

abbrev pub pending : Jobs → String → List ℕ → Tree → Tree
pending jobs name [] t = t
pending jobs name (o ∷ os) t =
    pending jobs name os (apply_at (name ∷ []) (set_pending jobs o) t []).0

abbrev pub filled : Tree
filled =
    pending sample_jobs "B" (11 ∷ 12 ∷ [])
      (pending sample_jobs "A" (1 ∷ 2 ∷ 3 ∷ 4 ∷ 5 ∷ 6 ∷ []) sample_tree)

-- What a test computes with.
unfoldable pub program : Unit {0}
unfolding get_jobs_to_run get_wakeup_time Queue.get_wakeup_time apply_at set_done set_pending
    set_running set_failed yield_jobs Queue.pop Queue.promote Queue.add Queue.remove Queue.member
    PriorityQueue.add PriorityQueue.remove PriorityQueue.pop PriorityQueue.peek PriorityQueue.len
    PriorityQueue.member before lt_ignoring_eta set_no_eta has_capacity contains discard add
program = tt

-- First B1, for its priority and since B has room for one, then three jobs of A.
runs_B1_A1_A2_A3 : (get_jobs_to_run 100 sample_jobs filled).2 ≡ 11 ∷ 1 ∷ 2 ∷ 3 ∷ []
unfolding program
runs_B1_A1_A2_A3 = refl

abbrev after_first : Tree
after_first = (get_jobs_to_run 100 sample_jobs filled).1

-- A2 is done, and A4 is next.
runs_A4 :
    (get_jobs_to_run 100 sample_jobs (apply_at ("A" ∷ []) (set_done 2) after_first []).0).2 ≡ 4 ∷ []
unfolding program
runs_A4 = refl

-- A channel that throttles yields one job, and asks to be woken when the pause ends.
abbrev throttled : Tree
throttled = pending sample_jobs "A" (1 ∷ 2 ∷ []) (
    node (create "root" (some (pos 4)) false 0)
      (child (node (create "A" (some (pos 4)) false 2) leaf) leaf))

abbrev after_throttle : Tree
after_throttle = (get_jobs_to_run 100 sample_jobs throttled).1

runs_throttled :
    ((get_jobs_to_run 100 sample_jobs throttled).2 ≡ 1 ∷ [])
    × ((get_wakeup_time sample_jobs 0 after_throttle).1 ≡ 102)
    × ((get_jobs_to_run 101 sample_jobs after_throttle).2 ≡ [])
    × ((get_jobs_to_run 102 sample_jobs after_throttle).2 ≡ 2 ∷ [])
unfolding program
runs_throttled = (refl, refl, refl, refl)
