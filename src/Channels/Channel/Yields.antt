-- ===== src/Channels/Channel/Yields.antt =====
-- What a run of the loop of `get_jobs_to_run` does with the jobs of a channel, and why it ends.
use others_addons.Base.{
  ℕ, ◌+◌, ◌≡◌, refl, ◌∙◌, subst, Bool, true, false, not, ◌&&◌, ◌||◌, List, [], ◌∷◌, Option, none,
  some, arith, ◌==◌, ==_iff, leb, contains, contains-add,
}
use others_addons.Channels.Job.{Jobs, lt_ignoring_eta, eta_of}
use others_addons.Channels.Queue
use others_addons.Channels.Queue.Invariant.{IsValid}
use others_addons.Channels.Queue.Pop.{
  Pops, nothing_ready, waits, returns, is_ready, pop_lem, pop-IsValid,
}
use others_addons.Channels.Queue.Kept.{sequential-pop, due-pop, order-pop, member-pop}
use others_addons.Channels.Channel.{Channel}
use others_addons.Channels.Channel.Run.{Yields, full, dry, throttled, more, started}

abbrev pub yielded : ℕ → List (Jobs × ℕ) → Bool
yielded x [] = false
yielded x ((jobs, job) ∷ trace) = x == job || yielded x trace

-- What a run does: the jobs that it yields leave the queue and run, each was due, and nothing else
-- of the channel's jobs changes.
pub record Moves (now : ℕ) (jobs : Jobs) (c : Channel) (trace : List (Jobs × ℕ)) (jobs' : Jobs)
    (c' : Channel) : Type 0 where
  pub valid : IsValid jobs' c'.queue
  pub queue : (x : ℕ) → Queue.member x c'.queue ≡ (Queue.member x c.queue && not (yielded x trace))
  pub running : (x : ℕ) → contains x c'.running ≡ (contains x c.running || yielded x trace)
  pub failed : c'.failed ≡ c.failed
  pub was_ready : (x : ℕ) → yielded x trace ≡ true → is_ready now jobs c.queue x ≡ true
  pub due : (x : ℕ) → leb (eta_of (jobs' x)) now ≡ leb (eta_of (jobs x)) now
  pub order :
      (x y : ℕ)
      → lt_ignoring_eta (jobs' x).key (jobs' y).key ≡ lt_ignoring_eta (jobs x).key (jobs y).key
  pub sequential : c'.queue.sequential ≡ c.queue.sequential

ready_of_Pops :
    {now : ℕ} {jobs : Jobs} {q q' : Queue.ChannelQueue} {r : Option ℕ} (o : ℕ)
    → Pops now jobs q q' r
    → r ≡ some o
    → is_ready now jobs q o ≡ true
ready_of_Pops o (nothing_ready n s) e = absurd (cc)
ready_of_Pops o (waits sq w m l f s) e = absurd (cc)
ready_of_Pops {now} {jobs} {q} o (returns p r f s) e =
    subst (λ z. is_ready now jobs q z ≡ true) (cc) r

module _ (now : ℕ) (jobs : Jobs) (c : Channel) (v : IsValid jobs c.queue) where
  abbrev popped : Option ℕ
  popped = (Queue.pop now jobs c.queue).2

  ready_popped : (job : ℕ) → popped ≡ some job → is_ready now jobs c.queue job ≡ true
  ready_popped job found = ready_of_Pops job (pop_lem now jobs c.queue v) found

  member-popped :
      (x job : ℕ)
      → popped ≡ some job
      → Queue.member x (Queue.pop now jobs c.queue).1 ≡ (not (x == job) && Queue.member x c.queue)
  member-popped x job found = ground (arith, member-pop now jobs c.queue v x)

  Moves-dry :
      popped ≡ none
      → Moves now jobs c []
          (Queue.pop now jobs c.queue).0
          (record c { queue = (Queue.pop now jobs c.queue).1 })
  Moves-dry nothing = record {
    valid = pop-IsValid now jobs c.queue v;
    queue = λ x. ground (arith, member-pop now jobs c.queue v x);
    running = λ x. ground arith;
    failed = refl;
    was_ready = λ x m. absurd (cc);
    due = due-pop now jobs c.queue v;
    order = order-pop now jobs c.queue v;
    sequential = sequential-pop now jobs c.queue v;
  }

  -- One job started, and then a run from there.
  Moves-more :
      (job : ℕ) (pause_until : ℕ) {trace : List (Jobs × ℕ)} {jobs' : Jobs} {c' : Channel}
      → popped ≡ some job
      → Moves now
          (Queue.pop now jobs c.queue).0
          (record (started now jobs c job) { pause_until = pause_until })
          trace
          jobs'
          c'
      → Moves now jobs c (((Queue.pop now jobs c.queue).0, job) ∷ trace) jobs' c'
  Moves-more job pause_until found m = record {
    valid = m.valid;
    queue = λ x. ground (arith, m.queue x, member-popped x job found);
    running = λ x. ground (arith, m.running x, contains-add x job c.running);
    failed = m.failed;
    was_ready = λ x y. ground (
      arith,
      m.was_ready x,
      ready_popped job found,
      member-popped x job found,
      due-pop now jobs c.queue v x,
      ==_iff x job,
    );
    due = λ x. m.due x ∙ due-pop now jobs c.queue v x;
    order = λ x y. m.order x y ∙ order-pop now jobs c.queue v x y;
    sequential = m.sequential ∙ sequential-pop now jobs c.queue v;
  }

Moves-nil :
    (now : ℕ) (jobs : Jobs) (c : Channel) → IsValid jobs c.queue → Moves now jobs c [] jobs c
Moves-nil now jobs c v = record {
  valid = v;
  queue = λ x. ground arith;
  running = λ x. ground arith;
  failed = refl;
  was_ready = λ x m. absurd (cc);
  due = λ x. refl;
  order = λ x y. refl;
  sequential = refl;
}

-- A run moves jobs from the queue to the running jobs, only jobs whose eta is not in the future,
-- and leaves the others where they are.
pub Yields-Moves :
    {now : ℕ} {jobs jobs' : Jobs} {c c' : Channel} {trace : List (Jobs × ℕ)}
    → Yields now jobs c trace jobs' c'
    → IsValid jobs c.queue
    → Moves now jobs c trace jobs' c'
Yields-Moves {now} {jobs} {c = c} (full h) v = Moves-nil now jobs c v
Yields-Moves {now} {jobs} {c = c} (dry h e) v = Moves-dry now jobs c v e
Yields-Moves {now} {jobs} {c = c} (throttled job h e t) v =
    Moves-more now jobs c v job (now + c.throttle) e
      (Moves-nil now _ _ (pop-IsValid now jobs c.queue v))
Yields-Moves {now} {jobs} {c = c} (more job h e t y) v =
    Moves-more now jobs c v job c.pause_until e (Yields-Moves y (pop-IsValid now jobs c.queue v))
