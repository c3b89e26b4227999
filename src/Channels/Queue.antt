-- ===== src/Channels/Queue.antt =====
-- `ChannelQueue` (queue_job/jobrunner/channels.py): the jobs that wait in a channel. Jobs with an
-- eta are set aside in a heap of their own until their eta is past due.
pub mod Invariant
pub mod Members
pub mod Comparable
pub mod Size
pub mod Promote
pub mod Ready
pub mod Pop
pub mod Kept
use others_addons.Base.{
  ℕ, zero, suc, ◌+◌, Bool, true, false, not, ◌&&◌, ◌||◌, List, Option, none, some, ◌==◌, leb, ltb,
  if◌then◌else◌, length,
}
use others_addons.Channels.PriorityQueue.{PriorityQueue}
use others_addons.Channels.PriorityQueue
use others_addons.Channels.Job.{Jobs, lt_ignoring_eta, before, eta_of, set_no_eta}

pub record ChannelQueue : Type 0 where
  pub queue : PriorityQueue
  pub eta_queue : PriorityQueue
  pub sequential : Bool

abbrev pub empty : Bool → ChannelQueue
empty sequential = record {
  queue = PriorityQueue.empty;
  eta_queue = PriorityQueue.empty;
  sequential = sequential;
}

-- `__len__`
unfoldable pub len : ChannelQueue → ℕ
len q = PriorityQueue.len q.eta_queue + PriorityQueue.len q.queue

-- `__contains__`
unfoldable pub member : ℕ → ChannelQueue → Bool
member o q = PriorityQueue.member o q.eta_queue || PriorityQueue.member o q.queue

unfoldable pub add : Jobs → ℕ → ChannelQueue → ChannelQueue
add jobs o q =
    if eta_of (jobs o) == 0
    then record q { queue = PriorityQueue.add (before jobs) o q.queue }
    else record q { eta_queue = PriorityQueue.add (before jobs) o q.eta_queue }

unfoldable pub remove : ℕ → ChannelQueue → ChannelQueue
remove o q = record q {
  eta_queue = PriorityQueue.remove o q.eta_queue;
  queue = PriorityQueue.remove o q.queue;
}

-- One round of the first loop of `pop` behind its test: `self._eta_queue.pop()`, `set_no_eta`,
-- `self._queue.add`. The `none` branches here and below stand for an `IndexError` or an
-- `AttributeError` on an empty heap, which the tests on `len` keep the code from.
unfoldable pub promote : Jobs → ChannelQueue → Jobs × ChannelQueue
promote jobs q =
    let (rest, popped) = PriorityQueue.pop q.eta_queue in
    elim popped [
      | none ↦ (jobs, record q { eta_queue = rest })
      | some o ↦
          let jobs' = set_no_eta jobs o in
          (jobs', record q { eta_queue = rest; queue = PriorityQueue.add (before jobs') o q.queue })
    ]

unfoldable pub is_due : ℕ → Jobs → Option ℕ → Bool
is_due now jobs none = false
is_due now jobs (some o) = leb (eta_of (jobs o)) now

-- `while self._eta_queue and self._eta_queue[0].eta <= now`. The fuel is the size of the heap of
-- jobs with an eta, of which each round takes one off.
unfoldable pub promote_due : ℕ → ℕ → Jobs → ChannelQueue → Jobs × ChannelQueue
unfolding is_due
promote_due zero now jobs q = (jobs, q)
promote_due (suc fuel) now jobs q =
    if PriorityQueue.len q.eta_queue == 0
    then (jobs, q)
    else let (looked, first) = PriorityQueue.peek q.eta_queue in
      let q' = record q { eta_queue = looked } in
      let next = promote jobs q' in
      let rest = promote_due fuel now next.0 next.1 in
      if is_due now jobs first then rest else (jobs, q')

-- The test that makes a sequential queue wait for a job with an eta.
unfoldable pub goes_first : Jobs → Option ℕ → Option ℕ → Bool
goes_first jobs none job = false
goes_first jobs (some eta_job) none = false
goes_first jobs (some eta_job) (some job) = lt_ignoring_eta (jobs eta_job).key (jobs job).key

-- `return self._queue.pop()`
unfoldable pub take : Jobs → ChannelQueue → Jobs × ChannelQueue × Option ℕ
take jobs q =
    let (rest, popped) = PriorityQueue.pop q.queue in (jobs, record q { queue = rest }, popped)

-- A sequential queue looks at both heaps, and waits or takes.
unfoldable pub wait_or_take : Jobs → ChannelQueue → Jobs × ChannelQueue × Option ℕ
unfolding goes_first take
wait_or_take jobs q =
    let (eta_looked, eta_job) = PriorityQueue.peek q.eta_queue in
    let (looked, job) = PriorityQueue.peek q.queue in
    let q' = record q { eta_queue = eta_looked; queue = looked } in
    if goes_first jobs eta_job job then (jobs, q', none) else take jobs q'

-- `pop` behind its first loop.
unfoldable pub pop_ready : Jobs → ChannelQueue → Jobs × ChannelQueue × Option ℕ
unfolding wait_or_take
pop_ready jobs q =
    if q.sequential
      && (not (PriorityQueue.len q.eta_queue == 0) && not (PriorityQueue.len q.queue == 0))
    then wait_or_take jobs q
    else take jobs q

unfoldable pub pop : ℕ → Jobs → ChannelQueue → Jobs × ChannelQueue × Option ℕ
unfolding pop_ready promote_due
pop now jobs q =
    let promoted = promote_due (length q.eta_queue.heap) now jobs q in
    pop_ready promoted.0 promoted.1

-- A wakeup time of 0 is none. The minimum is Python's `min`.
unfoldable pub earlier : ℕ → ℕ → ℕ
earlier wakeup_time t = if wakeup_time == 0 then t else if ltb t wakeup_time then t else wakeup_time

unfoldable pub wakeup_eta : Jobs → ℕ → Option ℕ → ℕ
wakeup_eta jobs wakeup_time none = wakeup_time
wakeup_eta jobs wakeup_time (some o) = earlier wakeup_time (eta_of (jobs o))

unfoldable pub get_wakeup_time : Jobs → ℕ → ChannelQueue → ChannelQueue × ℕ
unfolding wakeup_eta earlier
get_wakeup_time jobs wakeup_time q =
    if PriorityQueue.len q.eta_queue == 0
    then (q, wakeup_time)
    else let (looked, first) = PriorityQueue.peek q.eta_queue in
      (record q { eta_queue = looked }, wakeup_eta jobs wakeup_time first)
