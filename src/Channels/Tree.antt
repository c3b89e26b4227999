-- ===== src/Channels/Tree.antt =====
-- The channels of a `ChannelManager` (queue_job/jobrunner/channels.py): the tree that the `parent`
-- and `children` links make, and the operations that walk it. Children stand in the order in which
-- they were created, which is that of the dictionary `children`.
pub mod Capacity
pub mod Sample
use Prim.Native.String.{String}
use text.Mathlib.Text.{◌==◌ as str_eq}
use others_addons.Base.{
  ℕ, Bool, true, false, List, [], ◌∷◌, ◌++◌, if◌then◌else◌, Option, none, some,
}
use others_addons.Channels.Job.{Jobs}
use others_addons.Channels.Queue.{ChannelQueue}
use others_addons.Channels.Queue
use others_addons.Channels.Channel.{Channel, yield_unpaused, wakeup_here}

mutual
  pub data Tree : Type 0 where
    node : Channel → Children → Tree

  pub data Children : Type 0 where
    leaf : Children
    child : Tree → Children → Children

abbrev pub root_of : Tree → Channel
root_of (node c children) = c

-- An operation on a channel and its ancestors, nearest first.
abbrev pub Operation : Type 0
Operation = List Channel → List Channel

-- Puts the results of an operation back: the channel itself, and its ancestors.
abbrev pub put_back : List Channel → Channel → Children → List Channel → Tree × List Channel
put_back [] c children above = (node c children, above)
put_back (c' ∷ above') c children above = (node c' children, above')

-- Applies an operation to the channel at a path. A path that leads nowhere changes nothing.
unfoldable mutual
  pub apply_at : List String → Operation → Tree → List Channel → Tree × List Channel
  apply_at path op (node c children) above = elim path [
    | [] ↦ put_back (op (c ∷ above)) c children above
    | name ∷ rest ↦
        let (children', chain) = apply_below name rest op children (c ∷ above) in
        put_back chain c children' above
  ]

  pub apply_below :
      String → List String → Operation → Children → List Channel → Children × List Channel
  apply_below name path op leaf above = (leaf, above)
  apply_below name path op (child t rest) above =
      let here = apply_at path op t above in
      let there = apply_below name path op rest above in
      if str_eq (root_of t).name name
      then (child here.0 rest, here.1)
      else (child t there.0, there.1)

-- The loop over the children of `get_jobs_to_run`: each child hands the jobs that it yields to the
-- queue of the channel, one by one. `enqueue_jobs` is `get_jobs_to_run` of a child, whose consumer
-- is the `self._queue.add(job)` of its parent.
unfoldable mutual
  unfolding yield_unpaused

  pub enqueue_jobs : ℕ → Jobs → Tree → ChannelQueue → Jobs × Tree × ChannelQueue
  enqueue_jobs now jobs (node c children) parent_queue =
      let (jobs', children', queue) = enqueue_children now jobs children c.queue in
      let (jobs'', c', parent_queue') =
        yield_unpaused Queue.add now jobs' (record c { queue = queue }) parent_queue in
      (jobs'', node c' children', parent_queue')

  pub enqueue_children : ℕ → Jobs → Children → ChannelQueue → Jobs × Children × ChannelQueue
  enqueue_children now jobs leaf queue = (jobs, leaf, queue)
  enqueue_children now jobs (child t rest) queue =
      let (jobs', t', queue') = enqueue_jobs now jobs t queue in
      let (jobs'', rest', queue'') = enqueue_children now jobs' rest queue' in
      (jobs'', child t' rest', queue'')

-- `get_jobs_to_run` of the root channel, whose jobs go to the runner in this order.
unfoldable pub get_jobs_to_run : ℕ → Jobs → Tree → Jobs × Tree × List ℕ
unfolding enqueue_jobs enqueue_children yield_unpaused
get_jobs_to_run now jobs (node c children) =
    let (jobs', children', queue) = enqueue_children now jobs children c.queue in
    let (jobs'', c', yielded) =
      yield_unpaused (λ _ job out. out ++ job ∷ []) now jobs' (record c { queue = queue }) [] in
    (jobs'', node c' children', yielded)

-- `get_wakeup_time`
unfoldable mutual
  unfolding wakeup_here

  pub get_wakeup_time : Jobs → ℕ → Tree → Tree × ℕ
  get_wakeup_time jobs wakeup_time (node c children) =
      let (c', here, more) = wakeup_here jobs wakeup_time c in
      let below = children_wakeup_time jobs here children in
      if more then (node c' below.0, below.1) else (node c' children, here)

  pub children_wakeup_time : Jobs → ℕ → Children → Children × ℕ
  children_wakeup_time jobs wakeup_time leaf = (leaf, wakeup_time)
  children_wakeup_time jobs wakeup_time (child t rest) =
      let (t', first) = get_wakeup_time jobs wakeup_time t in
      let (rest', last) = children_wakeup_time jobs first rest in (child t' rest', last)
