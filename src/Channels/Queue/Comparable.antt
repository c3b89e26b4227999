-- ===== src/Channels/Queue/Comparable.antt =====
-- No heap of a channel queue compares jobs that cannot be compared.
use others_addons.Base.{ℕ, ◌≡◌, ◌≢◌, ◌⊎◌, inl, inr, true, none, arith, contains}
use others_addons.Channels.Job.{Jobs, lt?}
use others_addons.Channels.Queue.{ChannelQueue}
use others_addons.Channels.Queue.Invariant.{IsValid}

-- In a valid queue a comparison of two jobs of one heap, removed ones included, raises no
-- `TypeError`.
pub comparable :
    (jobs : Jobs) (q : ChannelQueue) (x y : ℕ)
    → IsValid jobs q
    → ((contains x q.queue.known ≡ true) × (contains y q.queue.known ≡ true))
      ⊎ ((contains x q.eta_queue.known ≡ true) × (contains y q.eta_queue.known ≡ true))
    → lt? (jobs x).key (jobs y).key ≢ none
unfolding lt?
comparable jobs q x y v (inl (m, n)) = ground (arith, v.queue_no_eta x m, v.queue_no_eta y n)
comparable jobs q x y v (inr (m, n)) = ground (arith, v.eta_positive x m, v.eta_positive y n)
