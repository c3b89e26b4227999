-- ===== src/Channels/Queue/Promote.antt =====
-- The first loop of `ChannelQueue.pop`: exactly the jobs whose eta is past due lose their eta and
-- move to the heap of the jobs without.
use others_addons.Base.{
  ℕ, zero, suc, ◌≤◌, ◌<◌, ◌≡◌, refl, sym, ◌∙◌, inl, inr, true, false, not, ◌&&◌, ◌||◌, Option, none,
  some, arith, ◌==◌, ==_iff, if◌then◌else◌, Bool-cases, Option-cases, contains, leb, length,
}
use others_addons.Channels.PriorityQueue.{PriorityQueue}
use others_addons.Channels.PriorityQueue
use others_addons.Channels.PriorityQueue.Contents.{
  add-IsValid, member-add, taken_member, drained_member,
}
use others_addons.Channels.PriorityQueue.Pop.{
  pop-Pops, pop-peek, member-peek, pop-IsValid, member-len_zero, member-no_heap, pop_shrinks,
}
use others_addons.Channels.PriorityQueue.Known.{known-add, known-pop, known-pop_taken, member-known}
use others_addons.Channels.PriorityQueue.Order.{
  IsSorted-congr, add-IsSorted, pop-IsSorted, pop_first,
}
use others_addons.Channels.Job.{Jobs, before, eta_of, set_no_eta, drop_eta}
use others_addons.Channels.Job.Order.{before-IsStrict, before-congr, not-before-eta}
use others_addons.Channels.Queue.{ChannelQueue, promote, promote_due, is_due}
use others_addons.Channels.Queue.Invariant.{IsValid, peek_eta-IsValid}

pub set_no_eta_other : (jobs : Jobs) (o x : ℕ) → (x == o) ≡ false → set_no_eta jobs o x ≡ jobs x
unfolding set_no_eta
set_no_eta_other jobs o x h = rw h

pub set_no_eta_self : (jobs : Jobs) (o : ℕ) → set_no_eta jobs o o ≡ drop_eta (jobs o)
unfolding set_no_eta
set_no_eta_self jobs o = ground arith

module _ (jobs : Jobs) (q : ChannelQueue) (v : IsValid jobs q) (o : ℕ)
    (popped : (PriorityQueue.pop q.eta_queue).1 ≡ some o) where
  abbrev rest : PriorityQueue
  rest = (PriorityQueue.pop q.eta_queue).0

  abbrev jobs' : Jobs
  jobs' = set_no_eta jobs o

  popped-positive : 0 < eta_of (jobs o)
  popped-positive =
      v.eta_positive o
        (member-known o q.eta_queue (taken_member o (pop-Pops q.eta_queue v.eta_valid) popped).0)

  same_in_queue : (x : ℕ) → contains x q.queue.heap ≡ true → jobs' x ≡ jobs x
  same_in_queue x m =
      set_no_eta_other jobs o x
        (ground (arith, v.queue_valid.heap-known x, v.queue_no_eta x, popped-positive, ==_iff x o))

  same_in_rest : (x : ℕ) → contains x rest.known ≡ true → jobs' x ≡ jobs x
  same_in_rest x m =
      set_no_eta_other jobs o x (ground (arith, known-pop_taken q.eta_queue o popped, ==_iff x o))

  abbrev promoted : ChannelQueue
  promoted = record q { eta_queue = rest; queue = PriorityQueue.add (before jobs') o q.queue }

  promoted-no_eta : (x : ℕ) → contains x promoted.queue.known ≡ true → (jobs' x).key.eta ≡ none
  unfolding set_no_eta
  promoted-no_eta x m =
      ground (arith, known-add (before jobs') x o q.queue, v.queue_no_eta x, ==_iff x o)

  promoted-IsValid : IsValid jobs' promoted
  promoted-IsValid = record {
    queue_valid = add-IsValid (before jobs') o q.queue v.queue_valid;
    eta_valid = pop-IsValid q.eta_queue v.eta_valid;
    queue_sorted = add-IsSorted (before jobs') (before-IsStrict jobs') o q.queue (
        IsSorted-congr (before jobs) (before jobs') q.queue.heap
          (λ x y m n. before-congr jobs jobs' x y (same_in_queue x m) (same_in_queue y n))
          v.queue_sorted);
    eta_sorted =
        IsSorted-congr (before jobs) (before jobs') rest.heap
          (λ x y m n.
            before-congr jobs jobs' x y
              (same_in_rest x (rw ((pop-IsValid q.eta_queue v.eta_valid).heap-known x) at m))
              (same_in_rest y (rw ((pop-IsValid q.eta_queue v.eta_valid).heap-known y) at n)))
          (pop-IsSorted (before jobs) (before-IsStrict jobs) q.eta_queue v.eta_sorted);
    queue_no_eta = promoted-no_eta;
    eta_positive = λ x m. rw (same_in_rest x m) (v.eta_positive x (known-pop q.eta_queue x m));
  }

  promote-peek :
      promote jobs (record q { eta_queue = (PriorityQueue.peek q.eta_queue).0 }) ≡ (jobs', promoted)
  unfolding promote
  promote-peek = rw ((pop-peek q.eta_queue).1, popped, promote) (rw (pop-peek q.eta_queue).1)

-- What the loop leaves, job by job.
pub record Promotes (now : ℕ) (jobs : Jobs) (q : ChannelQueue) (jobs' : Jobs) (q' : ChannelQueue)
    : Type 0 where
  pub valid : IsValid jobs' q'
  pub sequential : q'.sequential ≡ q.sequential
  pub job :
      (x : ℕ)
      → jobs' x ≡ (
          if PriorityQueue.member x q.eta_queue && leb (eta_of (jobs x)) now
          then drop_eta (jobs x)
          else jobs x)
  pub still_set_aside :
      (x : ℕ)
      → PriorityQueue.member x q'.eta_queue
        ≡ (PriorityQueue.member x q.eta_queue && not (leb (eta_of (jobs x)) now))
  pub ready :
      (x : ℕ)
      → PriorityQueue.member x q'.queue ≡ (
          PriorityQueue.member x q.queue
          || (PriorityQueue.member x q.eta_queue && leb (eta_of (jobs x)) now))

-- Nothing is due.
Promotes-none :
    (now : ℕ) (jobs : Jobs) (q : ChannelQueue) (eta_queue : PriorityQueue)
    → IsValid jobs (record q { eta_queue = eta_queue })
    → ((x : ℕ) → PriorityQueue.member x eta_queue ≡ PriorityQueue.member x q.eta_queue)
    → ((x : ℕ) → PriorityQueue.member x q.eta_queue ≡ true → leb (eta_of (jobs x)) now ≡ false)
    → Promotes now jobs q jobs (record q { eta_queue = eta_queue })
Promotes-none now jobs q eta_queue v same none_due = record {
  valid = v;
  sequential = refl;
  job = λ x. ground (arith, none_due x);
  still_set_aside = λ x. ground (arith, same x, none_due x);
  ready = λ x. ground (arith, none_due x);
}

module _ (now : ℕ) (jobs : Jobs) (q : ChannelQueue) (v : IsValid jobs q) where
  first-member :
      (o : ℕ)
      → (PriorityQueue.pop q.eta_queue).1 ≡ some o
      → PriorityQueue.member o q.eta_queue ≡ true
  first-member o popped = (taken_member o (pop-Pops q.eta_queue v.eta_valid) popped).0

  module _ (o : ℕ) (popped : (PriorityQueue.pop q.eta_queue).1 ≡ some o)
      (due : leb (eta_of (jobs o)) now ≡ true) where
    here :
        (PriorityQueue.member o q.eta_queue ≡ true)
        × ((x : ℕ)
            → PriorityQueue.member x (rest jobs q v o popped)
              ≡ (not (x == o) && PriorityQueue.member x q.eta_queue))
    here = taken_member o (pop-Pops q.eta_queue v.eta_valid) popped

    -- The first job is due: what the other rounds leave, seen from before this one.
    Promotes-step :
        {jobs'' : Jobs} {q'' : ChannelQueue}
        → Promotes now (set_no_eta jobs o) (promoted jobs q v o popped) jobs'' q''
        → Promotes now jobs q jobs'' q''
    unfolding set_no_eta
    Promotes-step p = record {
      valid = p.valid;
      sequential = p.sequential;
      job = λ x. ground (arith, p.job x, here.0, here.1 x, ==_iff x o);
      still_set_aside = λ x. ground (arith, p.still_set_aside x, here.0, here.1 x, ==_iff x o);
      ready = λ x. ground (
        arith,
        p.ready x,
        here.0,
        here.1 x,
        ==_iff x o,
        member-add (before (set_no_eta jobs o)) x o q.queue,
      );
    }

  nothing_taken :
      (PriorityQueue.pop q.eta_queue).1 ≡ none
      → (x : ℕ) → PriorityQueue.member x q.eta_queue ≡ false
  nothing_taken e x = drained_member x (pop-Pops q.eta_queue v.eta_valid) e

  -- The first job has the least eta.
  none_due :
      (o : ℕ)
      → (PriorityQueue.pop q.eta_queue).1 ≡ some o
      → leb (eta_of (jobs o)) now ≡ false
      → (x : ℕ) → PriorityQueue.member x q.eta_queue ≡ true
      → leb (eta_of (jobs x)) now ≡ false
  none_due o popped late x m = ground (
    arith,
    v.eta_positive o (member-known o q.eta_queue (first-member o popped)),
    v.eta_positive x (member-known x q.eta_queue m),
    not-before-eta jobs x o,
    pop_first (before jobs) (before-IsStrict jobs) q.eta_queue o x v.eta_valid v.eta_sorted popped
        m,
  )

-- The loop ends by its test, and moves exactly the jobs that are due.
pub promote_due-Promotes :
    (fuel now : ℕ) (jobs : Jobs) (q : ChannelQueue)
    → IsValid jobs q
    → length q.eta_queue.heap ≤ fuel
    → Promotes now jobs q (promote_due fuel now jobs q).0 (promote_due fuel now jobs q).1
unfolding promote_due
promote_due-Promotes zero now jobs q v h =
    Promotes-none now jobs q q.eta_queue v (λ x. refl)
      (λ x m. absurd (ground (arith, member-no_heap q.eta_queue x v.eta_valid h)))
promote_due-Promotes (suc fuel) now jobs q v h =
    elim (Bool-cases (PriorityQueue.len q.eta_queue == 0)) [
      | inl none_left ↦ rw none_left (
          Promotes-none now jobs q q.eta_queue v (λ x. refl)
            (λ x m. absurd (ground (arith, member-len_zero q.eta_queue x v.eta_valid none_left))))
      | inr more ↦ rw more (elim (Option-cases (PriorityQueue.peek q.eta_queue).1) [
        | inl nothing ↦
            rw (nothing, is_due)
              (looked λ x m. absurd (ground (arith, nothing_taken now jobs q v (first nothing) x)))
        | inr (o, found) ↦ elim (Bool-cases (leb (eta_of (jobs o)) now)) [
          | inl due ↦
              rw (found, is_due, due, promote-peek jobs q v o (first found))
                (Promotes-step now jobs q v o (first found) due (
                  promote_due-Promotes fuel now (set_no_eta jobs o)
                    (promoted jobs q v o (first found)) (promoted-IsValid jobs q v o (first found))
                    (omega (arith, pop_shrinks q.eta_queue o (first found)))))
          | inr late ↦
              rw (found, is_due, late) (looked (none_due now jobs q v o (first found) late))
        ]
      ])
    ]
  where
    first :
        {r : Option ℕ}
        → (PriorityQueue.peek q.eta_queue).1 ≡ r
        → (PriorityQueue.pop q.eta_queue).1 ≡ r
    first e = sym (pop-peek q.eta_queue).0 ∙ e

    looked :
        ((x : ℕ) → PriorityQueue.member x q.eta_queue ≡ true → leb (eta_of (jobs x)) now ≡ false)
        → Promotes now jobs q jobs (record q { eta_queue = (PriorityQueue.peek q.eta_queue).0 })
    looked =
        Promotes-none now jobs q (PriorityQueue.peek q.eta_queue).0 (peek_eta-IsValid jobs q v)
          (λ x. member-peek q.eta_queue x)
