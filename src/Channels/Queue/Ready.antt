-- ===== src/Channels/Queue/Ready.antt =====
-- `ChannelQueue.pop` behind its first loop (queue_job/jobrunner/channels.py), where the two heaps
-- hold the jobs that are ready and those that are not.
use others_addons.Base.{
  ℕ, ◌≡◌, refl, sym, ◌∙◌, inl, inr, Bool, true, false, not, ◌&&◌, Option, none, some, arith, ◌==◌,
  ==_iff, if◌then◌else◌, Bool-cases, Option-cases,
}
use others_addons.Channels.PriorityQueue.{PriorityQueue}
use others_addons.Channels.PriorityQueue
use others_addons.Channels.PriorityQueue.Pop.{pop-Pops, pop-peek, member-peek}
use others_addons.Channels.PriorityQueue.Known.{member-known}
use others_addons.Channels.PriorityQueue.Order.{pop_first}
use others_addons.Channels.Job.{SortingKey, Jobs, lt_ignoring_eta, before}
use others_addons.Channels.Job.Order.{before-IsStrict, before_no_eta}
use others_addons.Channels.Queue.{ChannelQueue, member, goes_first, take, wait_or_take, pop_ready}
use others_addons.Channels.Queue.Invariant.{
  IsValid, peek_eta-IsValid, peek_queue-IsValid, pop_queue-IsValid,
}
use others_addons.Channels.PriorityQueue.Contents.{taken_member, drained_member, member-Pops, names}

-- The outcome of `pop` behind its first loop: there `queue` holds the jobs that are ready and
-- `eta_queue` those that are not.
pub data Outcome (jobs : Jobs) (q q' : ChannelQueue) : Option ℕ → Type 0 where
  nothing_ready :
      ((x : ℕ) → PriorityQueue.member x q.queue ≡ false)
      → ((x : ℕ) → member x q' ≡ member x q)
      → Outcome jobs q q' none
  waits :
      q.sequential ≡ true
      → (e : ℕ) → PriorityQueue.member e q.eta_queue ≡ true
      → ((x : ℕ)
          → PriorityQueue.member x q.queue ≡ true
          → lt_ignoring_eta (jobs e).key (jobs x).key ≡ true)
      → ((x : ℕ) → member x q' ≡ member x q)
      → Outcome jobs q q' none
  returns :
      (o : ℕ)
      → PriorityQueue.member o q.queue ≡ true
      → ((x : ℕ)
          → PriorityQueue.member x q.queue ≡ true
          → lt_ignoring_eta (jobs x).key (jobs o).key ≡ false)
      → ((x : ℕ) → member x q' ≡ (not (x == o) && member x q))
      → Outcome jobs q q' (some o)

lt_ignoring_eta_trans_ge :
    (a b c : SortingKey)
    → lt_ignoring_eta a b ≡ true
    → lt_ignoring_eta c b ≡ false
    → lt_ignoring_eta a c ≡ true
unfolding lt_ignoring_eta
lt_ignoring_eta_trans_ge a b c p q = ground arith

module _ (jobs : Jobs) (q : ChannelQueue) (v : IsValid jobs q) where
  -- The object that the heap of ready jobs gives is the first of them.
  first_ready :
      (o x : ℕ)
      → (PriorityQueue.pop q.queue).1 ≡ some o
      → PriorityQueue.member x q.queue ≡ true
      → lt_ignoring_eta (jobs x).key (jobs o).key ≡ false
  first_ready o x popped m = ground (
    arith,
    before_no_eta jobs x o (v.queue_no_eta x (member-known x q.queue m)) (
        v.queue_no_eta o
          (member-known o q.queue (taken_member o (pop-Pops q.queue v.queue_valid) popped).0)),
    pop_first (before jobs) (before-IsStrict jobs) q.queue o x v.queue_valid v.queue_sorted popped
        m,
  )

  not_set_aside :
      (o : ℕ) → PriorityQueue.member o q.queue ≡ true → PriorityQueue.member o q.eta_queue ≡ false
  not_set_aside o m = ground (
    arith,
    v.queue_no_eta o (member-known o q.queue m),
    member-known o q.eta_queue,
    v.eta_positive o,
  )

  take-members :
      (x : ℕ)
      → PriorityQueue.member x (PriorityQueue.pop q.queue).0
        ≡ (not (names (PriorityQueue.pop q.queue).1 x) && PriorityQueue.member x q.queue)
  take-members x = member-Pops x (pop-Pops q.queue v.queue_valid)

  took_nothing : (PriorityQueue.pop q.queue).1 ≡ none → Outcome jobs q (take jobs q).1 none
  unfolding take member
  took_nothing nothing =
      nothing_ready (λ x. drained_member x (pop-Pops q.queue v.queue_valid) nothing)
        (λ x. ground (arith, take-members x))

  took : (o : ℕ) → (PriorityQueue.pop q.queue).1 ≡ some o → Outcome jobs q (take jobs q).1 (some o)
  unfolding take member
  took o found =
      returns o here (λ x m. first_ready o x found m)
        (λ x. ground (arith, take-members x, not_set_aside o here, ==_iff x o))
    where
      here : PriorityQueue.member o q.queue ≡ true
      here = (taken_member o (pop-Pops q.queue v.queue_valid) found).0

  take-Outcome : Outcome jobs q (take jobs q).1 (take jobs q).2
  unfolding take
  take-Outcome = elim (Option-cases (PriorityQueue.pop q.queue).1) [
    | inl nothing ↦ rw nothing (took_nothing nothing)
    | inr (o, found) ↦ rw found (took o found)
  ]

-- An outcome of a queue that holds the same jobs.
Outcome-congr :
    {jobs : Jobs} {p q q' : ChannelQueue} {r : Option ℕ}
    → p.sequential ≡ q.sequential
    → ((x : ℕ) → PriorityQueue.member x p.queue ≡ PriorityQueue.member x q.queue)
    → ((x : ℕ) → PriorityQueue.member x p.eta_queue ≡ PriorityQueue.member x q.eta_queue)
    → Outcome jobs p q' r
    → Outcome jobs q q' r
unfolding member
Outcome-congr s hq he (nothing_ready empty same) =
    nothing_ready (λ x. ground (arith, hq x, empty x)) (λ x. ground (arith, hq x, he x, same x))
Outcome-congr s hq he (waits sequential e m first same) =
    waits (sym s ∙ sequential) e (sym (he e) ∙ m) (λ x n. first x (hq x ∙ n))
      (λ x. ground (arith, hq x, he x, same x))
Outcome-congr s hq he (returns o m first same) =
    returns o (sym (hq o) ∙ m) (λ x n. first x (hq x ∙ n)) (λ x. ground (arith, hq x, he x, same x))

module _ (jobs : Jobs) (q : ChannelQueue) (v : IsValid jobs q) where
  abbrev looked : ChannelQueue
  looked = record q {
    eta_queue = (PriorityQueue.peek q.eta_queue).0;
    queue = (PriorityQueue.peek q.queue).0;
  }

  looked-IsValid : IsValid jobs looked
  looked-IsValid = peek_queue-IsValid jobs _ (peek_eta-IsValid jobs q v)

  looked-Outcome :
      {q' : ChannelQueue} {r : Option ℕ} → Outcome jobs looked q' r → Outcome jobs q q' r
  looked-Outcome = Outcome-congr refl (λ x. member-peek q.queue x) (λ x. member-peek q.eta_queue x)

  must_wait :
      q.sequential ≡ true
      → (e j : Option ℕ) → (PriorityQueue.peek q.eta_queue).1 ≡ e
      → (PriorityQueue.peek q.queue).1 ≡ j
      → goes_first jobs e j ≡ true
      → Outcome jobs q looked none
  unfolding goes_first member
  must_wait sequential none j found_e found_j h = absurd (cc)
  must_wait sequential (some e) none found_e found_j h = absurd (cc)
  must_wait sequential (some e) (some j) found_e found_j h =
      waits sequential e
        (taken_member e (pop-Pops q.eta_queue v.eta_valid)
          (sym (pop-peek q.eta_queue).0 ∙ found_e)).0
        (λ x m.
          lt_ignoring_eta_trans_ge _ _ _ h
            (first_ready jobs q v j x (sym (pop-peek q.queue).0 ∙ found_j) m))
        (λ x. ground (arith, member-peek q.queue x, member-peek q.eta_queue x))

  wait_or_take-Outcome :
      q.sequential ≡ true → Outcome jobs q (wait_or_take jobs q).1 (wait_or_take jobs q).2
  unfolding wait_or_take
  wait_or_take-Outcome sequential =
      elim (Bool-cases
        (goes_first jobs (PriorityQueue.peek q.eta_queue).1 (PriorityQueue.peek q.queue).1)) [
          | inl waiting ↦ rw waiting (must_wait sequential _ _ refl refl waiting)
          | inr free ↦ rw free (looked-Outcome (take-Outcome jobs looked looked-IsValid))
        ]

  either-Outcome :
      (b : Bool)
      → (b ≡ true → q.sequential ≡ true)
      → (let r = if b then wait_or_take jobs q else take jobs q in Outcome jobs q r.1 r.2)
  either-Outcome true h = wait_or_take-Outcome (h refl)
  either-Outcome false h = take-Outcome jobs q v

  pub pop_ready-Outcome : Outcome jobs q (pop_ready jobs q).1 (pop_ready jobs q).2
  unfolding pop_ready
  pop_ready-Outcome = either-Outcome _ (λ h. ground arith)

  wait_or_take-IsValid : IsValid jobs (wait_or_take jobs q).1
  unfolding wait_or_take
  wait_or_take-IsValid =
      elim (Bool-cases
        (goes_first jobs (PriorityQueue.peek q.eta_queue).1 (PriorityQueue.peek q.queue).1)) [
          | inl waiting ↦ rw waiting looked-IsValid
          | inr free ↦ rw free (pop_queue-IsValid jobs looked looked-IsValid)
        ]

  either-IsValid : (b : Bool) → IsValid jobs (if b then wait_or_take jobs q else take jobs q).1
  unfolding take
  either-IsValid true = wait_or_take-IsValid
  either-IsValid false = pop_queue-IsValid jobs q v

  pub pop_ready-IsValid : IsValid jobs (pop_ready jobs q).1
  unfolding pop_ready
  pop_ready-IsValid = either-IsValid _

  wait_or_take-jobs : (wait_or_take jobs q).0 ≡ jobs
  unfolding wait_or_take
  wait_or_take-jobs = ground arith

  pub pop_ready-jobs : (pop_ready jobs q).0 ≡ jobs
  unfolding pop_ready
  pop_ready-jobs = ground arith
