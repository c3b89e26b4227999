-- ===== src/Channels/Channel/Throttle.antt =====
-- Why a run of the loop of `get_jobs_to_run` ends, and how a throttle spaces the jobs
-- (queue_job/jobrunner/channels.py).
use others_addons.Base.{
  ℕ, ◌+◌, ◌<◌, ◌≡◌, ◌≢◌, refl, sym, ◌∙◌, ◌⊎◌, inl, inr, true, false, List, [], ◌∷◌, Option, none,
  arith, Bool-cases, length,
}
use others_addons.Channels.Job.{Jobs, lt_ignoring_eta, eta_of}
use others_addons.Channels.Queue
use others_addons.Channels.Queue.Invariant.{IsValid}
use others_addons.Channels.Queue.Pop.{
  Pops, nothing_ready, waits, returns, is_ready, pop_lem, pop-IsValid,
}
use others_addons.Channels.Queue.Kept.{sequential-pop, due-pop, order-pop, member-pop}
use others_addons.Channels.Channel.{Channel, has_capacity, check_pause, room, yield_unpaused}
use others_addons.Channels.Channel.Run.{Yields, full, dry, throttled, more, IsRun, yield_jobs-IsRun}

-- Why the loop stops at a channel, after it has yielded the jobs of the trace.
pub data Ends (now : ℕ) (jobs : Jobs) (c : Channel) (trace : List (Jobs × ℕ)) : Type 0 where
  no_room : has_capacity c ≡ false → Ends now jobs c trace
  paused :
      c.throttle ≢ 0 → c.pause_until ≡ now + c.throttle → length trace ≡ 1 → Ends now jobs c trace
  none_ready : ((x : ℕ) → is_ready now jobs c.queue x ≡ false) → Ends now jobs c trace
  waits_for_eta :
      c.queue.sequential ≡ true
      → (e : ℕ) → Queue.member e c.queue ≡ true
      → now < eta_of (jobs e)
      → ((x : ℕ)
          → is_ready now jobs c.queue x ≡ true
          → lt_ignoring_eta (jobs e).key (jobs x).key ≡ true)
      → Ends now jobs c trace

pub throttle-Yields :
    {now : ℕ} {jobs jobs' : Jobs} {c c' : Channel} {trace : List (Jobs × ℕ)}
    → Yields now jobs c trace jobs' c'
    → c'.throttle ≡ c.throttle
throttle-Yields (full h) = refl
throttle-Yields (dry h e) = refl
throttle-Yields (throttled job h e t) = refl
throttle-Yields (more job h e t y) = throttle-Yields y

module _ (now : ℕ) (jobs : Jobs) (c : Channel) (v : IsValid jobs c.queue) where
  abbrev jobs' : Jobs
  jobs' = (Queue.pop now jobs c.queue).0

  abbrev after : Channel
  after = record c { queue = (Queue.pop now jobs c.queue).1 }

  ready_after :
      (x : ℕ)
      → (Queue.pop now jobs c.queue).2 ≡ none
      → is_ready now jobs' after.queue x ≡ is_ready now jobs c.queue x
  ready_after x nothing =
      ground (arith, member-pop now jobs c.queue v x, due-pop now jobs c.queue v x)

  Ends-dry :
      {q : Queue.ChannelQueue} {r : Option ℕ}
      → Pops now jobs c.queue q r
      → r ≡ none
      → (Queue.pop now jobs c.queue).2 ≡ none
      → Ends now jobs' after []
  Ends-dry (nothing_ready n s) e nothing = none_ready (λ x. ready_after x nothing ∙ n x)
  Ends-dry (returns o r f s) e nothing = absurd (cc)
  Ends-dry (waits sequential w m late first s) e nothing =
      waits_for_eta (sequential-pop now jobs c.queue v ∙ sequential) w
        (ground (arith, member-pop now jobs c.queue v w))
        (ground (arith, due-pop now jobs c.queue v w))
        (λ x h. order-pop now jobs c.queue v w x ∙ first x (sym (ready_after x nothing) ∙ h))

Ends-more :
    {now : ℕ} {jobs : Jobs} {c : Channel} {trace : List (Jobs × ℕ)} (entry : Jobs × ℕ)
    → c.throttle ≡ 0
    → Ends now jobs c trace
    → Ends now jobs c (entry ∷ trace)
Ends-more entry t (no_room h) = no_room h
Ends-more entry t (paused h p l) = absurd (h t)
Ends-more entry t (none_ready n) = none_ready n
Ends-more entry t (waits_for_eta s e m l f) = waits_for_eta s e m l f

-- The loop stops only if the channel has no capacity left, or is paused after one job, or no job
-- of its queue is ready, or the queue is sequential and a job that waits for its eta goes first.
pub Yields-Ends :
    {now : ℕ} {jobs jobs' : Jobs} {c c' : Channel} {trace : List (Jobs × ℕ)}
    → Yields now jobs c trace jobs' c'
    → IsValid jobs c.queue
    → Ends now jobs' c' trace
Yields-Ends (full h) v = no_room h
Yields-Ends {now} {jobs} {c = c} (dry h e) v =
    Ends-dry now jobs c v (pop_lem now jobs c.queue v) e e
Yields-Ends (throttled job h e t) v = paused t refl refl
Yields-Ends {now} {jobs} {c = c} (more job h e t y) v =
    Ends-more _ (throttle-Yields y ∙ t) (Yields-Ends y (pop-IsValid now jobs c.queue v))

-- What one call does, behind the loop over the children: it is still paused, or it is a run.
pub yield_unpaused_cases :
    {S : Type 0} (consume : Jobs → ℕ → S → S) (now : ℕ) (jobs : Jobs) (c : Channel) (s : S)
    → ((check_pause now c).1 ≡ true)
        × (yield_unpaused consume now jobs c s ≡ (jobs, (check_pause now c).0, s))
      ⊎ IsRun consume now jobs (check_pause now c).0 s (yield_unpaused consume now jobs c s)
unfolding yield_unpaused
yield_unpaused_cases consume now jobs c s = elim (Bool-cases (check_pause now c).1) [
  | inl waiting ↦ inl (waiting, rw waiting)
  | inr free ↦ inr (
      rw free (
        yield_jobs-IsRun consume (room (check_pause now c).0) now jobs (check_pause now c).0 s
          (omega arith)))
]
