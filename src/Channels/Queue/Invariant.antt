-- ===== src/Channels/Queue/Invariant.antt =====
-- What holds of the two heaps of a channel queue, and that every operation keeps it: no heap ever
-- compares a job that has an eta with one that has none, and both are in order.
use others_addons.Base.{
  ℕ, ◌<◌, ◌≡◌, ◌≢◌, inl, inr, Bool, true, none, some, arith, ◌==◌, ==_iff, Bool-cases, contains,
}
use others_addons.Channels.PriorityQueue.{PriorityQueue}
use others_addons.Channels.PriorityQueue
use others_addons.Channels.PriorityQueue.Contents
use others_addons.Channels.PriorityQueue.Pop.{pop-IsValid, peek-IsValid}
use others_addons.Channels.PriorityQueue.Known.{known-add, known-remove, known-pop, known-peek}
use others_addons.Channels.PriorityQueue.Order.{
  IsSorted, add-IsSorted, remove-IsSorted, pop-IsSorted, peek-IsSorted,
}
use others_addons.Channels.Job.{Jobs, before, eta_of}
use others_addons.Channels.Job.Order.{before-IsStrict}
use others_addons.Channels.Queue.{ChannelQueue, empty, add, remove}

pub record IsValid (jobs : Jobs) (q : ChannelQueue) : Type 0 where
  pub queue_valid : Contents.IsValid q.queue
  pub eta_valid : Contents.IsValid q.eta_queue
  pub queue_sorted : IsSorted (before jobs) q.queue.heap
  pub eta_sorted : IsSorted (before jobs) q.eta_queue.heap
  pub queue_no_eta : (x : ℕ) → contains x q.queue.known ≡ true → (jobs x).key.eta ≡ none
  pub eta_positive : (x : ℕ) → contains x q.eta_queue.known ≡ true → 0 < eta_of (jobs x)

pub empty-IsValid : (jobs : Jobs) (sequential : Bool) → IsValid jobs (empty sequential)
unfolding contains
empty-IsValid jobs sequential = record {
  queue_valid = Contents.empty-IsValid;
  eta_valid = Contents.empty-IsValid;
  queue_sorted = tt;
  eta_sorted = tt;
  queue_no_eta = λ x m. absurd (cc);
  eta_positive = λ x m. absurd (cc);
}

-- `add` keeps a queue valid, if the eta of the job is not the number 0.
pub add-IsValid :
    (jobs : Jobs) (o : ℕ) (q : ChannelQueue)
    → (jobs o).key.eta ≢ some 0
    → IsValid jobs q
    → IsValid jobs (add jobs o q)
unfolding add
add-IsValid jobs o q h v = elim (Bool-cases (eta_of (jobs o) == 0)) [
  | inl zero_eta ↦ rw zero_eta (record {
    queue_valid = Contents.add-IsValid (before jobs) o q.queue v.queue_valid;
    eta_valid = v.eta_valid;
    queue_sorted = add-IsSorted (before jobs) (before-IsStrict jobs) o q.queue v.queue_sorted;
    eta_sorted = v.eta_sorted;
    queue_no_eta =
        λ x m. ground (arith, known-add (before jobs) x o q.queue, v.queue_no_eta x, ==_iff x o);
    eta_positive = v.eta_positive;
  })
  | inr later ↦ rw later (record {
    queue_valid = v.queue_valid;
    eta_valid = Contents.add-IsValid (before jobs) o q.eta_queue v.eta_valid;
    queue_sorted = v.queue_sorted;
    eta_sorted = add-IsSorted (before jobs) (before-IsStrict jobs) o q.eta_queue v.eta_sorted;
    queue_no_eta = v.queue_no_eta;
    eta_positive = λ x m.
        ground (arith, known-add (before jobs) x o q.eta_queue, v.eta_positive x, ==_iff x o);
  })
]

pub remove-IsValid :
    (jobs : Jobs) (o : ℕ) (q : ChannelQueue) → IsValid jobs q → IsValid jobs (remove o q)
unfolding remove
remove-IsValid jobs o q v = record {
  queue_valid = Contents.remove-IsValid o q.queue v.queue_valid;
  eta_valid = Contents.remove-IsValid o q.eta_queue v.eta_valid;
  queue_sorted = remove-IsSorted (before jobs) (before-IsStrict jobs) o q.queue v.queue_sorted;
  eta_sorted = remove-IsSorted (before jobs) (before-IsStrict jobs) o q.eta_queue v.eta_sorted;
  queue_no_eta = λ x m. v.queue_no_eta x (rw (known-remove o q.queue) at m);
  eta_positive = λ x m. v.eta_positive x (rw (known-remove o q.eta_queue) at m);
}

-- The queue with other heaps.
abbrev with_eta : ChannelQueue → PriorityQueue → ChannelQueue
with_eta q eta_queue = record q { eta_queue = eta_queue }

abbrev with_queue : ChannelQueue → PriorityQueue → ChannelQueue
with_queue q queue = record q { queue = queue }

module _ (jobs : Jobs) (q : ChannelQueue) (v : IsValid jobs q) where
  pub peek_eta-IsValid : IsValid jobs (with_eta q (PriorityQueue.peek q.eta_queue).0)
  peek_eta-IsValid = record {
    queue_valid = v.queue_valid;
    eta_valid = peek-IsValid q.eta_queue v.eta_valid;
    queue_sorted = v.queue_sorted;
    eta_sorted = peek-IsSorted (before jobs) (before-IsStrict jobs) q.eta_queue v.eta_sorted;
    queue_no_eta = v.queue_no_eta;
    eta_positive = λ x m. v.eta_positive x (known-peek q.eta_queue x m);
  }

  pub pop_eta-IsValid : IsValid jobs (with_eta q (PriorityQueue.pop q.eta_queue).0)
  pop_eta-IsValid = record {
    queue_valid = v.queue_valid;
    eta_valid = pop-IsValid q.eta_queue v.eta_valid;
    queue_sorted = v.queue_sorted;
    eta_sorted = pop-IsSorted (before jobs) (before-IsStrict jobs) q.eta_queue v.eta_sorted;
    queue_no_eta = v.queue_no_eta;
    eta_positive = λ x m. v.eta_positive x (known-pop q.eta_queue x m);
  }

  pub peek_queue-IsValid : IsValid jobs (with_queue q (PriorityQueue.peek q.queue).0)
  peek_queue-IsValid = record {
    queue_valid = peek-IsValid q.queue v.queue_valid;
    eta_valid = v.eta_valid;
    queue_sorted = peek-IsSorted (before jobs) (before-IsStrict jobs) q.queue v.queue_sorted;
    eta_sorted = v.eta_sorted;
    queue_no_eta = λ x m. v.queue_no_eta x (known-peek q.queue x m);
    eta_positive = v.eta_positive;
  }

  pub pop_queue-IsValid : IsValid jobs (with_queue q (PriorityQueue.pop q.queue).0)
  pop_queue-IsValid = record {
    queue_valid = pop-IsValid q.queue v.queue_valid;
    eta_valid = v.eta_valid;
    queue_sorted = pop-IsSorted (before jobs) (before-IsStrict jobs) q.queue v.queue_sorted;
    eta_sorted = v.eta_sorted;
    queue_no_eta = λ x m. v.queue_no_eta x (known-pop q.queue x m);
    eta_positive = v.eta_positive;
  }
