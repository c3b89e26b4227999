-- ===== src/Channels/Queue/Members.antt =====
-- A channel queue as a set of jobs, and the time at which it asks to be woken.
use others_addons.Base.{
  ℕ, ◌≤◌, ◌<◌, ◌≡◌, ◌≢◌, sym, ◌⊎◌, inl, inr, true, not, ◌&&◌, ◌||◌, Option, none, some, arith, ◌==◌,
  ==_iff, Bool-cases, ltb,
}
use others_addons.Channels.PriorityQueue.{PriorityQueue}
use others_addons.Channels.PriorityQueue
use others_addons.Channels.PriorityQueue.Contents.{taken_member, drained_member}
use others_addons.Channels.PriorityQueue.Contents
use others_addons.Channels.PriorityQueue.Pop.{pop-Pops, pop-peek, member-len_zero}
use others_addons.Channels.PriorityQueue.Known.{member-known}
use others_addons.Channels.PriorityQueue.Order.{pop_first}
use others_addons.Channels.Job.{Jobs, before, eta_of}
use others_addons.Channels.Job.Order.{before-IsStrict, not-before-eta}
use others_addons.Channels.Queue.{
  ChannelQueue, member, add, remove, earlier, wakeup_eta, get_wakeup_time,
}
use others_addons.Channels.Queue.Invariant.{IsValid}

pub member-add :
    (jobs : Jobs) (x o : ℕ) (q : ChannelQueue) → member x (add jobs o q) ≡ (x == o || member x q)
unfolding member add
member-add jobs x o q = ground (
  arith,
  Contents.member-add (before jobs) x o q.queue,
  Contents.member-add (before jobs) x o q.eta_queue,
)

pub member-remove :
    (x o : ℕ) (q : ChannelQueue) → member x (remove o q) ≡ (not (x == o) && member x q)
unfolding member remove
member-remove x o q =
    ground (arith, Contents.member-remove x o q.queue, Contents.member-remove x o q.eta_queue)

-- `min` of the times that are given, where 0 is none.
pub earlier_lem :
    (w t : ℕ)
    → 0 < t
    → ((earlier w t ≡ w) ⊎ (earlier w t ≡ t))
      × (0 < earlier w t)
      × (earlier w t ≤ t)
      × (w ≢ 0 → earlier w t ≤ w)
unfolding earlier
earlier_lem w t h = ground arith

-- The time is the one given, or the least eta of the queue if that is sooner or none is given.
pub data Wakes (jobs : Jobs) (q : ChannelQueue) (w : ℕ) : ℕ → Type 0 where
  as_given :
      ((x : ℕ) → PriorityQueue.member x q.eta_queue ≡ true → (w ≢ 0) × (w ≤ eta_of (jobs x)))
      → Wakes jobs q w w
  at_eta :
      (o : ℕ)
      → PriorityQueue.member o q.eta_queue ≡ true
      → ((w ≡ 0) ⊎ (eta_of (jobs o) ≤ w))
      → ((x : ℕ) → PriorityQueue.member x q.eta_queue ≡ true → eta_of (jobs o) ≤ eta_of (jobs x))
      → Wakes jobs q w (eta_of (jobs o))

module _ (jobs : Jobs) (q : ChannelQueue) (v : IsValid jobs q) where
  least_eta :
      (o x : ℕ)
      → (PriorityQueue.pop q.eta_queue).1 ≡ some o
      → PriorityQueue.member x q.eta_queue ≡ true
      → eta_of (jobs o) ≤ eta_of (jobs x)
  least_eta o x popped m = ground (
    arith,
    v.eta_positive o
        (member-known o q.eta_queue (taken_member o (pop-Pops q.eta_queue v.eta_valid) popped).0),
    v.eta_positive x (member-known x q.eta_queue m),
    not-before-eta jobs x o,
    pop_first (before jobs) (before-IsStrict jobs) q.eta_queue o x v.eta_valid v.eta_sorted popped
        m,
  )

  Wakes-at :
      (w : ℕ) (r : Option ℕ)
      → (PriorityQueue.pop q.eta_queue).1 ≡ r
      → Wakes jobs q w (wakeup_eta jobs w r)
  unfolding wakeup_eta earlier
  Wakes-at w none e =
      as_given
        (λ x m. absurd (ground (arith, drained_member x (pop-Pops q.eta_queue v.eta_valid) e)))
  Wakes-at w (some o) e = elim (Bool-cases (w == 0)) [
    | inl unset ↦ rw unset (at_eta o here (inl ((==_iff w 0).0 unset)) (λ x m. least_eta o x e m))
    | inr set ↦ elim (Bool-cases (ltb (eta_of (jobs o)) w)) [
      | inl sooner ↦
          rw (set, sooner) (at_eta o here (inr (ground arith)) (λ x m. least_eta o x e m))
      | inr later ↦
          rw (set, later) (as_given (λ x m. (ground arith, ground (arith, least_eta o x e m))))
    ]
  ]
    where
      here : PriorityQueue.member o q.eta_queue ≡ true
      here = (taken_member o (pop-Pops q.eta_queue v.eta_valid) e).0

  -- The wakeup time of a valid queue is the least of the time given, unless that is 0 and none, and
  -- of the etas that the queue waits for.
  pub get_wakeup_time-Wakes : (w : ℕ) → Wakes jobs q w (get_wakeup_time jobs w q).1
  unfolding get_wakeup_time
  get_wakeup_time-Wakes w = elim (Bool-cases (PriorityQueue.len q.eta_queue == 0)) [
    | inl none_left ↦ rw none_left (
        as_given
          (λ x m. absurd (ground (arith, member-len_zero q.eta_queue x v.eta_valid none_left))))
    | inr more ↦ rw more (Wakes-at w _ (sym (pop-peek q.eta_queue).0))
  ]
