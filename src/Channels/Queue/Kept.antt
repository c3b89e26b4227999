-- ===== src/Channels/Queue/Kept.antt =====
-- What `ChannelQueue.pop` leaves as it was: which jobs are due, their order, and all other jobs.
use others_addons.Base.{ℕ, ◌≡◌, ◌∙◌, not, ◌&&◌, Option, arith, leb, length}
use native.Mathlib.Nat.{le_refl}
use others_addons.Channels.PriorityQueue.Contents.{names}
use others_addons.Channels.Job.{Jobs, lt_ignoring_eta, eta_of}
use others_addons.Channels.Queue.{ChannelQueue, member, pop_ready, pop}
use others_addons.Channels.Queue.Invariant.{IsValid}
use others_addons.Channels.Queue.Promote.{promote_due-Promotes}
use others_addons.Channels.Queue.Pop.{Pops, nothing_ready, waits, returns, pop_lem, pop-jobs}

pub member-Pops-names :
    {now : ℕ} {jobs : Jobs} {q q' : ChannelQueue} {r : Option ℕ} (x : ℕ)
    → Pops now jobs q q' r
    → member x q' ≡ (not (names r x) && member x q)
member-Pops-names x (nothing_ready n s) = s x
member-Pops-names x (waits sq e m l f s) = s x
member-Pops-names x (returns o r f s) = s x

sequential-pop_ready :
    (jobs : Jobs) (q : ChannelQueue) → (pop_ready jobs q).1.sequential ≡ q.sequential
unfolding pop_ready
sequential-pop_ready jobs q = ground arith

module _ (now : ℕ) (jobs : Jobs) (q : ChannelQueue) (v : IsValid jobs q) where
  pub sequential-pop : (pop now jobs q).1.sequential ≡ q.sequential
  unfolding pop
  sequential-pop =
      sequential-pop_ready _ _
      ∙ (promote_due-Promotes (length q.eta_queue.heap) now jobs q v (le_refl _)).sequential

  pub due-pop : (x : ℕ) → leb (eta_of ((pop now jobs q).0 x)) now ≡ leb (eta_of (jobs x)) now
  due-pop x = ground (arith, pop-jobs now jobs q v x)

  pub order-pop :
      (x y : ℕ)
      → lt_ignoring_eta ((pop now jobs q).0 x).key ((pop now jobs q).0 y).key
        ≡ lt_ignoring_eta (jobs x).key (jobs y).key
  unfolding lt_ignoring_eta
  order-pop x y = ground (arith, pop-jobs now jobs q v x, pop-jobs now jobs q v y)

  pub member-pop :
      (x : ℕ) → member x (pop now jobs q).1 ≡ (not (names (pop now jobs q).2 x) && member x q)
  member-pop x = member-Pops-names x (pop_lem now jobs q v)
