-- ===== src/Channels/Tests.antt =====
-- The theorems on channels at concrete inputs.
mod Configs
use Prim.Native.String.{String}
use others_addons.Base.{
  contains, ℕ, ◌≡◌, ◌≢◌, refl, inl, inr, Bool-cases, Bool, true, false, List, [], ◌∷◌, Option, none,
  some, arith, ◌==◌, ltb, if◌then◌else◌, length, pos,
}
use others_addons.Jobs.State.{failed}
use others_addons.Channels.PriorityQueue.Refinement.{
  Allows, adds, removes, looks, takes, answers, call, answers-empty-Allows,
}
use others_addons.Channels.PriorityQueue.Order.{IsStrict, IsTotal}
use others_addons.Channels.Job.{ChannelJob, Jobs, lt?}
use others_addons.Channels.Queue.{ChannelQueue, empty, add, pop}
use others_addons.Channels.Queue
use others_addons.Channels.Queue.Invariant.{IsValid, empty-IsValid, add-IsValid}
use others_addons.Channels.Queue.Comparable.{comparable}
use others_addons.Channels.Queue.Members.{Wakes, get_wakeup_time-Wakes}
use others_addons.Channels.Queue.Pop.{Pops, pop_lem, pop-IsValid}
use others_addons.Channels.Channel.{Channel, create, yield_jobs, yield_unpaused, set_running}
use others_addons.Channels.Channel.Chain
use others_addons.Channels.Channel.Chain.{places, place, running, waiting, IsPlaced}
use others_addons.Channels.Channel.Transition.{
  transition, Reaches, transition-Reaches, transition-IsPlaced,
}
use others_addons.Channels.Channel.Run.{feed}
use others_addons.Channels.Channel.Served.{yield_unpaused-serves}
use others_addons.Channels.Channel.Yields.{Moves}
use others_addons.Channels.Channel.Throttle.{Ends}
use others_addons.Channels.Channel.Spacing.{collect, throttle_spacing}
use others_addons.Channels.Channel.Loop.{yield_jobs_lem}
use others_addons.Channels.Tree.{Tree, get_jobs_to_run}
use others_addons.Channels.Manager.{
  get_channel_by_name, found, not_found, path_of, fallback, ensure_at,
}
use others_addons.Channels.Manager.Notify.{Manager}
use others_addons.Channels.Manager.Names.{Answers, get_channel_by_name-Answers}
use others_addons.Channels.Tree.Capacity.{AllTree, KeepsCapacity, get_jobs_to_run-AllTree}
use others_addons.Channels.Tree.Sample.{program, sample_jobs, sample_tree, filled}

-- Job 1 has no eta, job 2 has an eta of 20 and goes first, job 3 has an eta of 30.
abbrev key_job : Option ℕ → ℕ → ℕ → ChannelJob
key_job eta priority seq = record {
  db_name = 0;
  channel = "A" ∷ [];
  uuid = seq;
  key = record { eta = eta; priority = priority; date_created = 0; seq = seq };
}

abbrev three_jobs : Jobs
three_jobs o =
    if o == 2
    then key_job (some 20) 1 2
    else if o == 3
    then key_job (some 30) 9 3
    else key_job none 5 o

abbrev three : Bool → ChannelQueue
three sequential = add three_jobs 3 (add three_jobs 2 (add three_jobs 1 (empty sequential)))

three-IsValid : (sequential : Bool) → IsValid three_jobs (three sequential)
three-IsValid sequential =
    add-IsValid three_jobs 3 _ (λ e. cc)
      (add-IsValid three_jobs 2 _ (λ e. cc)
        (add-IsValid three_jobs 1 _ (λ e. cc) (empty-IsValid three_jobs sequential)))

-- At time 25 job 2 is due and has the better priority; at time 10 job 1 is taken, but a sequential
-- queue waits for job 2.
pops :
    ((pop 25 three_jobs (three false)).2 ≡ some 2)
    × ((pop 10 three_jobs (three false)).2 ≡ some 1)
    × ((pop 10 three_jobs (three true)).2 ≡ none)
unfolding program
pops = (refl, refl, refl)

pop_lem_example :
    Pops 25 three_jobs
      (three false)
      (pop 25 three_jobs (three false)).1
      (pop 25 three_jobs (three false)).2
pop_lem_example = pop_lem 25 three_jobs (three false) (three-IsValid false)

pop-IsValid_example : IsValid (pop 25 three_jobs (three true)).0 (pop 25 three_jobs (three true)).1
pop-IsValid_example = pop-IsValid 25 three_jobs (three true) (three-IsValid true)

get_jobs_to_run-AllTree_example : AllTree KeepsCapacity (get_jobs_to_run 100 sample_jobs filled).1
unfolding program
get_jobs_to_run-AllTree_example = get_jobs_to_run-AllTree 100 sample_jobs filled (omega arith)

-- A channel where job 1 waits, under a root channel.
abbrev channel : ℕ → Channel
channel throttle = record (create "A" (some (pos 2)) false throttle) { queue = three false }

abbrev chain : List Channel
chain = channel 0 ∷ create "root" (some (pos 1)) false 0 ∷ []

absent_from_root : (x : ℕ) → place x (create "root" (some (pos 1)) false 0) ≡ Chain.absent
unfolding program
absent_from_root x = refl

chain-IsPlaced : (x : ℕ) → IsPlaced (places x chain)
unfolding program
chain-IsPlaced x = inr (ground arith, ground arith, (refl, tt))

transition-IsPlaced_example :
    IsPlaced (places 1 (transition three_jobs (some failed) 1 chain))
    × ((x : ℕ) → x ≢ 1 → places x (transition three_jobs (some failed) 1 chain) ≡ places x chain)
transition-IsPlaced_example =
    transition-IsPlaced three_jobs (some failed) 1 chain (chain-IsPlaced 1)

transition-Reaches_example :
    Reaches (some failed) (places 1 chain) (places 1 (transition three_jobs (some failed) 1 chain))
transition-Reaches_example = transition-Reaches three_jobs (some failed) 1 chain (chain-IsPlaced 1)

-- Job 1 has been yielded to the root channel, where it waits; when it is marked as started, it stays there.
abbrev running_below : Channel
running_below = record (create "A" (some (pos 2)) false 0) { running = 1 ∷ [] }

abbrev waiting_root : Channel
waiting_root = record (create "root" (some (pos 1)) false 0) { queue = three false }

set_running_stays :
    set_running 1 (running_below ∷ waiting_root ∷ []) ≡ running_below ∷ waiting_root ∷ []
unfolding program
set_running_stays = refl

yield_jobs_lem_example :
    (let r = yield_jobs collect 9 10 three_jobs (channel 0) [] in
      (trace : List (Jobs × ℕ)) × Moves 10 three_jobs (channel 0) trace r.0 r.1
      × Ends 10 r.0 r.1 trace
      × (r.2 ≡ feed collect trace []))
unfolding program
yield_jobs_lem_example =
    yield_jobs_lem collect 9 10 three_jobs (channel 0) [] (omega arith) (three-IsValid false)

one_job : (yield_unpaused collect 10 three_jobs (channel 4) []).2 ≡ 1 ∷ []
unfolding program
one_job = refl

throttle_spacing_example :
    (yield_unpaused collect 13 three_jobs
      (record (channel 4) {
        queue = three false;
        running = 1 ∷ [];
        failed = [];
        pause_until = (yield_unpaused collect 10 three_jobs (channel 4) []).1.pause_until;
      })
      []).2
    ≡ []
throttle_spacing_example =
    throttle_spacing 10 13 three_jobs three_jobs (channel 4) (three false) (1 ∷ []) []
      (λ e. omega arith) (λ e. cc one_job) (omega arith)

ltb-IsStrict : IsStrict ltb
ltb-IsStrict = record { irreflexive = λ a. ground arith; transitive = λ a b c p q. ground arith }

ltb-IsTotal : IsTotal ltb
ltb-IsTotal a b away = elim (Bool-cases (ltb a b)) [
  | inl before ↦ inl before
  | inr after ↦ inr (ground (arith, after, away))
]

-- Channel A exists, and `root.A.B` does not.
abbrev below_a : List String
below_a = "root" ∷ "A" ∷ "B" ∷ []

get_channel_by_name-Answers_example :
    Answers false true
      (path_of below_a)
      (fallback (length (path_of below_a)) (path_of below_a) sample_tree)
      sample_tree
      (get_channel_by_name false true below_a sample_tree)
get_channel_by_name-Answers_example = get_channel_by_name-Answers false true below_a sample_tree

falls_back_below :
    get_channel_by_name false true below_a sample_tree
    ≡ found ("A" ∷ "A" ∷ "B" ∷ []) (ensure_at ("A" ∷ "A" ∷ "B" ∷ []) sample_tree)
unfolding get_channel_by_name
falls_back_below = refl

no_channel : get_channel_by_name false false below_a sample_tree ≡ not_found
unfolding get_channel_by_name
no_channel = refl

-- No job is known yet.
abbrev fresh_manager : Manager
fresh_manager = record { root = sample_tree; store = three_jobs; by_uuid = []; next = 0 }

abbrev all_alive : ℕ → Bool
all_alive job = true

-- 3 is removed and added again while it is in the heap.
answers-empty-Allows_example :
    Allows ltb
      (λ x. false)
      (adds 3 ∷ adds 5 ∷ removes 3 ∷ looks ∷ adds 3 ∷ takes ∷ takes ∷ takes ∷ [])
      (none ∷ none ∷ none ∷ some 5 ∷ none ∷ some 3 ∷ some 5 ∷ none ∷ [])
unfolding program answers call
answers-empty-Allows_example =
    answers-empty-Allows ltb ltb-IsStrict ltb-IsTotal
      (adds 3 ∷ adds 5 ∷ removes 3 ∷ looks ∷ adds 3 ∷ takes ∷ takes ∷ takes ∷ [])

-- Jobs 1 and 2 are due at 25, and job 3 is not.
abbrev roomy : Channel
roomy = record (channel 0) { capacity = none }

yield_unpaused-serves_example :
    contains 2 (yield_unpaused collect 25 three_jobs roomy []).1.running ≡ true
unfolding program contains
yield_unpaused-serves_example =
    yield_unpaused-serves collect 25 three_jobs roomy [] (three-IsValid false) refl refl refl 2 refl
