-- ===== src/Channels/Channel.antt =====
-- `Channel` (queue_job/jobrunner/channels.py): the state of one channel, and the operations on a
-- job. An operation that goes on to `self.parent` works on the chain of a channel and its
-- ancestors, nearest first.
pub mod Chain
pub mod Transition
pub mod Run
pub mod Capacity
pub mod Yields
pub mod Throttle
pub mod Spacing
pub mod Loop
pub mod Served
use Prim.Native.String.{String}
use others_addons.Base.{
  ℕ, zero, suc, ◌+◌, Bool, true, false, not, ◌&&◌, List, [], ◌∷◌, Option, none, some, ◌==◌, ltb,
  if◌then◌else◌, length, contains, discard, add as add_to_set, ℤ, pos, negsuc,
}
use others_addons.Channels.Job.{Jobs}
use others_addons.Channels.Queue.{ChannelQueue}
use others_addons.Channels.Queue

-- `capacity` is `None` or an integer; 0 and `None` are no limit. A `pause_until` of 0 is no pause.
pub record Channel : Type 0 where
  pub name : String
  pub queue : ChannelQueue
  pub running : List ℕ
  pub failed : List ℕ
  pub pause_until : ℕ
  pub capacity : Option ℤ
  pub throttle : ℕ

-- `Channel.__init__`, but for the entry in the parent's children.
abbrev pub create : String → Option ℤ → Bool → ℕ → Channel
create name capacity sequential throttle = record {
  name = name;
  queue = Queue.empty sequential;
  running = [];
  failed = [];
  pause_until = 0;
  capacity = capacity;
  throttle = throttle;
}

abbrev is_empty : List ℕ → Bool
is_empty [] = true
is_empty (x ∷ s) = false

unfoldable pub has_room : Option ℤ → ℕ → Bool
has_room none n = true
has_room (some (pos zero)) n = true
has_room (some (pos (suc c))) n = ltb n (suc c)
has_room (some (negsuc c)) n = false

unfoldable pub has_capacity : Channel → Bool
unfolding has_room
has_capacity c =
    if c.queue.sequential && not (is_empty c.failed)
    then false
    else has_room c.capacity (length c.running)

-- The first three lines of `remove`.
unfoldable pub remove_here : ℕ → Channel → Channel
remove_here job c = record c {
  queue = Queue.remove job c.queue;
  running = discard job c.running;
  failed = discard job c.failed;
}

unfoldable pub remove : ℕ → List Channel → List Channel
unfolding remove_here
remove job [] = []
remove job (c ∷ parents) = remove_here job c ∷ remove job parents

unfoldable pub set_done : ℕ → List Channel → List Channel
unfolding remove
set_done job chain = remove job chain

unfoldable pub set_pending : Jobs → ℕ → List Channel → List Channel
unfolding remove
set_pending jobs job [] = []
set_pending jobs job (c ∷ parents) =
    if Queue.member job c.queue
    then c ∷ parents
    else record c {
      queue = Queue.add jobs job c.queue;
      running = discard job c.running;
      failed = discard job c.failed;
    }
      ∷ remove job parents

unfoldable pub set_running : ℕ → List Channel → List Channel
set_running job [] = []
set_running job (c ∷ parents) =
    if contains job c.running
    then c ∷ parents
    else record c {
      queue = Queue.remove job c.queue;
      running = add_to_set job c.running;
      failed = discard job c.failed;
    }
      ∷ set_running job parents

unfoldable pub set_failed : ℕ → List Channel → List Channel
unfolding remove
set_failed job [] = []
set_failed job (c ∷ parents) =
    if contains job c.failed
    then c ∷ parents
    else record c {
      queue = Queue.remove job c.queue;
      running = discard job c.running;
      failed = add_to_set job c.failed;
    }
      ∷ remove job parents

-- The throttle test at the head of `get_jobs_to_run`: the channel with its pause ended if it is
-- over, and whether the channel is still paused.
unfoldable pub check_pause : ℕ → Channel → Channel × Bool
check_pause now c =
    if not (c.throttle == 0) && not (c.pause_until == 0)
    then if ltb now c.pause_until then (c, true) else (record c { pause_until = 0 }, false)
    else (c, false)

abbrev pub room : Channel → ℕ
room c = suc (length c.queue.queue.heap + length c.queue.eta_queue.heap)

-- What the consumer of the jobs does with each, and the consumer's state.
module _ {S : Type 0} (consume : Jobs → ℕ → S → S) where
  -- `while self.has_capacity()`. A job that is yielded is handed to the consumer at once. The fuel
  -- is one more than the entries of the queue's heaps.
  unfoldable pub yield_jobs : ℕ → ℕ → Jobs → Channel → S → Jobs × Channel × S
  yield_jobs zero now jobs c s = (jobs, c, s)
  yield_jobs (suc fuel) now jobs c s =
      let (jobs', queue, popped) = Queue.pop now jobs c.queue in
      let c' = record c { queue = queue } in
      let round : Jobs × Channel × S = elim popped [
        | none ↦ (jobs', c', s)
        | some job ↦
            let started = record c' { running = add_to_set job c.running } in
            let s' = consume jobs' job s in
            let rest = yield_jobs fuel now jobs' started s' in
            if c.throttle == 0
            then rest
            else (jobs', record started { pause_until = now + c.throttle }, s')
      ] in
      if has_capacity c then round else (jobs, c, s)

  -- `get_jobs_to_run` behind the loop over the children.
  unfoldable pub yield_unpaused : ℕ → Jobs → Channel → S → Jobs × Channel × S
  unfolding check_pause
  yield_unpaused now jobs c s =
      let (c', paused) = check_pause now c in
      let yielded = yield_jobs (room c') now jobs c' s in if paused then (jobs, c', s) else yielded

-- `get_wakeup_time` before the loop over the children: the channel, the time, and whether to go on
-- with the children.
unfoldable pub wakeup_here : Jobs → ℕ → Channel → Channel × ℕ × Bool
unfolding Queue.earlier
wakeup_here jobs wakeup_time c =
    if not (has_capacity c)
    then (c, wakeup_time, false)
    else if not (c.pause_until == 0)
    then (c, Queue.earlier wakeup_time c.pause_until, false)
    else let (queue, wakeup_time') = Queue.get_wakeup_time jobs wakeup_time c.queue in
      (record c { queue = queue }, wakeup_time', true)
