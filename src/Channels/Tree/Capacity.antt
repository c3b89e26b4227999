-- ===== src/Channels/Tree/Capacity.antt =====
-- `get_jobs_to_run` over the whole tree of channels keeps every channel within its capacity
-- (queue_job/jobrunner/channels.py).
use others_addons.Base.{ℕ, ◌≡◌, sym, ap, subst, inl, inr, [], arith, length}
use others_addons.Channels.Job.{Jobs}
use others_addons.Channels.Queue.{ChannelQueue}
use others_addons.Channels.Queue
use others_addons.Channels.Channel.{Channel, check_pause, yield_unpaused}
use others_addons.Channels.Channel.Throttle.{yield_unpaused_cases}
use others_addons.Channels.Channel.Capacity.{IsWithin, Yields-IsWithin}
use others_addons.Channels.Tree.{
  Tree, Children, node, leaf, child, enqueue_jobs, enqueue_children, get_jobs_to_run,
}

abbrev pub KeepsCapacity : Channel → Type 0
KeepsCapacity c = IsWithin c.capacity (length c.running)

capacity-check_pause : (now : ℕ) (c : Channel) → (check_pause now c).0.capacity ≡ c.capacity
unfolding check_pause
capacity-check_pause now c = ground arith

running-check_pause : (now : ℕ) (c : Channel) → (check_pause now c).0.running ≡ c.running
unfolding check_pause
running-check_pause now c = ground arith

check_pause-KeepsCapacity :
    (now : ℕ) (c : Channel) → KeepsCapacity c → KeepsCapacity (check_pause now c).0
check_pause-KeepsCapacity now c w = rw (capacity-check_pause now c, running-check_pause now c) w

yield_unpaused-KeepsCapacity :
    {S : Type 0} (consume : Jobs → ℕ → S → S) (now : ℕ) (jobs : Jobs) (c : Channel) (s : S)
    → KeepsCapacity c
    → KeepsCapacity (yield_unpaused consume now jobs c s).1
yield_unpaused-KeepsCapacity consume now jobs c s w =
    elim (yield_unpaused_cases consume now jobs c s) [
      | inl (_, e) ↦ subst KeepsCapacity (sym (ap (λ r. r.1) e)) (check_pause-KeepsCapacity now c w)
      | inr (trace, run, _) ↦ Yields-IsWithin run (check_pause-KeepsCapacity now c w)
    ]

-- Every channel of a tree.
abbrev mutual
  pub AllTree : (Channel → Type 0) → Tree → Type 0
  AllTree P (node c children) = P c × AllChildren P children

  pub AllChildren : (Channel → Type 0) → Children → Type 0
  AllChildren P leaf = Unit {0}
  AllChildren P (child t rest) = AllTree P t × AllChildren P rest

mutual
  unfolding enqueue_jobs enqueue_children

  enqueue_jobs-AllTree :
      (now : ℕ) (jobs : Jobs) (t : Tree) (queue : ChannelQueue)
      → AllTree KeepsCapacity t
      → AllTree KeepsCapacity (enqueue_jobs now jobs t queue).1
  enqueue_jobs-AllTree now jobs (node c children) queue h = (
    yield_unpaused-KeepsCapacity Queue.add now _ (record c { queue = _ }) queue h.0,
    enqueue_children-AllChildren now jobs children c.queue h.1,
  )

  enqueue_children-AllChildren :
      (now : ℕ) (jobs : Jobs) (children : Children) (queue : ChannelQueue)
      → AllChildren KeepsCapacity children
      → AllChildren KeepsCapacity (enqueue_children now jobs children queue).1
  enqueue_children-AllChildren now jobs leaf queue h = tt
  enqueue_children-AllChildren now jobs (child t rest) queue h =
      (enqueue_jobs-AllTree now jobs t queue h.0, enqueue_children-AllChildren now _ rest _ h.1)

-- If no channel runs more jobs than its capacity, none does after `get_jobs_to_run`.
pub get_jobs_to_run-AllTree :
    (now : ℕ) (jobs : Jobs) (t : Tree)
    → AllTree KeepsCapacity t
    → AllTree KeepsCapacity (get_jobs_to_run now jobs t).1
unfolding get_jobs_to_run
get_jobs_to_run-AllTree now jobs (node c children) h = (
  yield_unpaused-KeepsCapacity _ now _ (record c { queue = _ }) [] h.0,
  enqueue_children-AllChildren now jobs children c.queue h.1,
)
