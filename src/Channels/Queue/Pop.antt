-- ===== src/Channels/Queue/Pop.antt =====
-- Which job `ChannelQueue.pop` returns: the first of those whose eta is not in the future, unless
-- the queue is sequential and a job that still waits for its eta has to go first.
use others_addons.Base.{
  ℕ, ◌<◌, ◌≡◌, sym, ap, ◌∙◌, Bool, true, false, not, ◌&&◌, Option, none, some, arith, ◌==◌,
  if◌then◌else◌, leb, length,
}
use native.Mathlib.Nat.{le_refl}
use others_addons.Channels.PriorityQueue.{PriorityQueue}
use others_addons.Channels.PriorityQueue
use others_addons.Channels.PriorityQueue.Known.{member-known}
use others_addons.Channels.Job.{Jobs, lt_ignoring_eta, eta_of, drop_eta}
use others_addons.Channels.Queue.{ChannelQueue, member, promote_due, pop}
use others_addons.Channels.Queue.Invariant.{IsValid}
use others_addons.Channels.Queue.Ready.{
  Outcome, pop_ready-Outcome, pop_ready-IsValid, pop_ready-jobs,
}
use others_addons.Channels.Queue.Promote.{Promotes, promote_due-Promotes}

-- In the queue, with an eta that is not in the future, or none.
abbrev pub is_ready : ℕ → Jobs → ChannelQueue → ℕ → Bool
is_ready now jobs q x = member x q && leb (eta_of (jobs x)) now

-- What `pop` promises of the queue before, the queue after and the job returned. A job is ready if
-- it is in the queue and its eta is not in the future (or it has none).
pub data Pops (now : ℕ) (jobs : Jobs) (q q' : ChannelQueue) : Option ℕ → Type 0 where
  nothing_ready :
      ((x : ℕ) → is_ready now jobs q x ≡ false)
      → ((x : ℕ) → member x q' ≡ member x q)
      → Pops now jobs q q' none
  waits :
      q.sequential ≡ true
      → (e : ℕ) → member e q ≡ true
      → now < eta_of (jobs e)
      → ((x : ℕ) → is_ready now jobs q x ≡ true → lt_ignoring_eta (jobs e).key (jobs x).key ≡ true)
      → ((x : ℕ) → member x q' ≡ member x q)
      → Pops now jobs q q' none
  returns :
      (o : ℕ)
      → is_ready now jobs q o ≡ true
      → ((x : ℕ) → is_ready now jobs q x ≡ true → lt_ignoring_eta (jobs x).key (jobs o).key ≡ false)
      → ((x : ℕ) → member x q' ≡ (not (x == o) && member x q))
      → Pops now jobs q q' (some o)

module _ (now : ℕ) (jobs jobs' : Jobs) (q q' : ChannelQueue) (v : IsValid jobs q)
    (p : Promotes now jobs q jobs' q') where
  lt_ignoring_eta_kept :
      (x y : ℕ)
      → lt_ignoring_eta (jobs' x).key (jobs' y).key ≡ lt_ignoring_eta (jobs x).key (jobs y).key
  unfolding lt_ignoring_eta
  lt_ignoring_eta_kept x y = ground (arith, p.job x, p.job y)

  ready_kept : (x : ℕ) → PriorityQueue.member x q'.queue ≡ is_ready now jobs q x
  unfolding member
  ready_kept x = ground (arith, p.ready x, v.queue_no_eta x, member-known x q.queue)

  member_kept : (x : ℕ) → member x q' ≡ member x q
  unfolding member
  member_kept x =
      ground (arith, p.ready x, p.still_set_aside x, v.queue_no_eta x, member-known x q.queue)

  set_aside :
      (e : ℕ)
      → PriorityQueue.member e q'.eta_queue ≡ true
      → (member e q ≡ true) × (now < eta_of (jobs e))
  unfolding member
  set_aside e m = ground (arith, p.still_set_aside e)

  Outcome-Pops :
      {q'' : ChannelQueue} {r : Option ℕ} → Outcome jobs' q' q'' r → Pops now jobs q q'' r
  Outcome-Pops (Outcome.nothing_ready empty same) =
      nothing_ready (λ x. sym (ready_kept x) ∙ empty x) (λ x. same x ∙ member_kept x)
  Outcome-Pops (Outcome.waits sequential e m first same) =
      waits (sym p.sequential ∙ sequential) e (set_aside e m).0 (set_aside e m).1
        (λ x n. sym (lt_ignoring_eta_kept e x) ∙ first x (ready_kept x ∙ n))
        (λ x. same x ∙ member_kept x)
  Outcome-Pops (Outcome.returns o m first same) =
      returns o (sym (ready_kept o) ∙ m)
        (λ x n. sym (lt_ignoring_eta_kept x o) ∙ first x (ready_kept x ∙ n))
        (λ x. same x ∙ ap (λ b. not (x == o) && b) (member_kept x))

module _ (now : ℕ) (jobs : Jobs) (q : ChannelQueue) (v : IsValid jobs q) where
  abbrev moved : Jobs × ChannelQueue
  moved = promote_due (length q.eta_queue.heap) now jobs q

  moved-Promotes : Promotes now jobs q moved.0 moved.1
  moved-Promotes = promote_due-Promotes (length q.eta_queue.heap) now jobs q v (le_refl _)

  -- `pop` of a valid queue returns the first job that is ready, in the order that ignores the eta,
  -- and takes it out of the queue. It returns none only if no job is ready, or if the queue is
  -- sequential and a job whose eta is in the future goes before every ready one; then no job leaves
  -- the queue.
  pub pop_lem : Pops now jobs q (pop now jobs q).1 (pop now jobs q).2
  unfolding pop
  pop_lem =
      Outcome-Pops now jobs moved.0 q moved.1 v moved-Promotes
        (pop_ready-Outcome moved.0 moved.1 moved-Promotes.valid)

  -- What `pop` leaves of a valid queue is a valid queue over the jobs as it leaves them.
  pub pop-IsValid : IsValid (pop now jobs q).0 (pop now jobs q).1
  unfolding pop
  pop-IsValid =
      rw (pop_ready-jobs moved.0 moved.1 moved-Promotes.valid)
        (pop_ready-IsValid moved.0 moved.1 moved-Promotes.valid)

  -- `pop` changes a job object only by dropping its eta, and only if the eta has passed.
  pub pop-jobs :
      (x : ℕ)
      → (pop now jobs q).0 x ≡ (
          if PriorityQueue.member x q.eta_queue && leb (eta_of (jobs x)) now
          then drop_eta (jobs x)
          else jobs x)
  unfolding pop
  pop-jobs x = rw (pop_ready-jobs moved.0 moved.1 moved-Promotes.valid) (moved-Promotes.job x)
