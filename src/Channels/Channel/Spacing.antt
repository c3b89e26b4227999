-- ===== src/Channels/Channel/Spacing.antt =====
-- The `throttle` of a channel (queue_job/jobrunner/channels.py, `get_jobs_to_run`).
use others_addons.Base.{
  ℕ, ◌+◌, ◌<◌, ◌≡◌, ◌≢◌, refl, ◌∙◌, ap, ◌⊎◌, inl, inr, true, List, [], ◌∷◌, ◌++◌, arith, length,
  length-append,
}
use others_addons.Channels.Job.{Jobs}
use others_addons.Channels.Queue.{ChannelQueue}
use others_addons.Channels.Channel.{Channel, check_pause, yield_unpaused}
use others_addons.Channels.Channel.Run.{Yields, full, dry, throttled, more, feed}
use others_addons.Channels.Channel.Throttle.{yield_unpaused_cases}

-- The consumer that lists the jobs.
abbrev pub collect : Jobs → ℕ → List ℕ → List ℕ
collect jobs job out = out ++ job ∷ []

Yields_throttled :
    {now : ℕ} {jobs : Jobs} {c : Channel} {jobs' : Jobs} {c' : Channel} {trace : List (Jobs × ℕ)}
    → Yields now jobs c trace jobs' c'
    → c.throttle ≢ 0
    → (trace ≡ []) ⊎ (length trace ≡ 1) × (c'.pause_until ≡ now + c.throttle)
Yields_throttled (full h) t = inl refl
Yields_throttled (dry h e) t = inl refl
Yields_throttled (throttled job h e s) t = inr (refl, refl)
Yields_throttled (more job h e s y) t = absurd (t s)

throttle-check_pause : (now : ℕ) (c : Channel) → (check_pause now c).0.throttle ≡ c.throttle
unfolding check_pause
throttle-check_pause now c = ground arith

length-feed :
    (trace : List (Jobs × ℕ)) (s : List ℕ) → length (feed collect trace s) ≡ length s + length trace
length-feed [] s = omega arith
length-feed ((jobs, job) ∷ trace) s =
    omega (arith, length-feed trace (s ++ job ∷ []), length-append s (job ∷ []))

-- With a throttle one call yields one job at most, and if it yields one, the channel is paused
-- until the throttle has passed.
pub throttle_one :
    (now : ℕ) (jobs : Jobs) (c : Channel)
    → c.throttle ≢ 0
    → (let r = yield_unpaused collect now jobs c [] in
        (r.2 ≡ []) ⊎ (length r.2 ≡ 1) × (r.1.pause_until ≡ now + c.throttle))
throttle_one now jobs c t = elim (yield_unpaused_cases collect now jobs c []) [
  | inl (_, e) ↦ inl (ap (λ r. r.2) e)
  | inr (trace, run, fed) ↦ elim (Yields_throttled run (rw (throttle-check_pause now c) t)) [
    | inl nothing ↦ inl (fed ∙ ap (λ l. feed collect l []) nothing)
    | inr (one, pause) ↦ inr (
      omega (arith, ap length fed, length-feed trace [], one),
      pause ∙ ap (λ d. now + d) (throttle-check_pause now c),
    )
  ]
]

still_paused :
    (now : ℕ) (c : Channel) → c.throttle ≢ 0 → now < c.pause_until → (check_pause now c).1 ≡ true
unfolding check_pause
still_paused now c t h = ground arith

yields_nothing :
    (now : ℕ) (jobs : Jobs) (c : Channel)
    → (check_pause now c).1 ≡ true
    → (yield_unpaused collect now jobs c []).2 ≡ []
unfolding yield_unpaused
yields_nothing now jobs c h = rw h

-- After a call that yields a job, a throttled channel yields no job at any time before the throttle
-- is over, whatever else happens to the channel's queue and jobs in between.
pub throttle_spacing :
    (now later : ℕ) (jobs later_jobs : Jobs) (c : Channel) (queue : ChannelQueue)
    (running failed : List ℕ)
    → c.throttle ≢ 0
    → (yield_unpaused collect now jobs c []).2 ≢ []
    → later < now + c.throttle
    → (yield_unpaused collect later later_jobs
        (record c {
          queue = queue;
          running = running;
          failed = failed;
          pause_until = (yield_unpaused collect now jobs c []).1.pause_until;
        })
        []).2
      ≡ []
throttle_spacing now later jobs later_jobs c queue running failed t some_job soon =
    yields_nothing later later_jobs _ (still_paused later _ t pause)
  where
    pause : later < (yield_unpaused collect now jobs c []).1.pause_until
    pause = elim (throttle_one now jobs c t) [
      | inl nothing ↦ absurd (some_job nothing)
      | inr (_, e) ↦ rw e soon
    ]
