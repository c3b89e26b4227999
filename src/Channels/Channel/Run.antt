-- ===== src/Channels/Channel/Run.antt =====
-- `get_jobs_to_run` of one channel, behind the loop over its children
-- (queue_job/jobrunner/channels.py): the runs of its loop as a relation, and that it ends.
use others_addons.Base.{
  ℕ, zero, suc, ◌+◌, ◌<◌, ◌≡◌, ◌≢◌, refl, inl, inr, true, false, List, [], ◌∷◌, none, some, arith,
  ◌==◌, Bool-cases, Option-cases, add as add_to_set,
}
use others_addons.Channels.Job.{Jobs}
use others_addons.Channels.Queue
use others_addons.Channels.Queue.Size.{size, size-pop}
use others_addons.Channels.Channel.{Channel, has_capacity, yield_jobs}

-- The channel that has started a job which its queue gave.
abbrev pub started : ℕ → Jobs → Channel → ℕ → Channel
started now jobs c job = record c {
  queue = (Queue.pop now jobs c.queue).1;
  running = add_to_set job c.running;
}

-- A run of the loop, with the jobs that it yields and the job store at the time of each.
pub data Yields (now : ℕ) : Jobs → Channel → List (Jobs × ℕ) → Jobs → Channel → Type 0 where
  full : {jobs : Jobs} {c : Channel} → has_capacity c ≡ false → Yields now jobs c [] jobs c
  dry :
      {jobs : Jobs} {c : Channel}
      → has_capacity c ≡ true
      → (Queue.pop now jobs c.queue).2 ≡ none
      → Yields now jobs c []
          (Queue.pop now jobs c.queue).0
          (record c { queue = (Queue.pop now jobs c.queue).1 })
  throttled :
      {jobs : Jobs} {c : Channel} (job : ℕ)
      → has_capacity c ≡ true
      → (Queue.pop now jobs c.queue).2 ≡ some job
      → c.throttle ≢ 0
      → Yields now jobs c
          (((Queue.pop now jobs c.queue).0, job) ∷ [])
          (Queue.pop now jobs c.queue).0
          (record (started now jobs c job) { pause_until = now + c.throttle })
  more :
      {jobs jobs' : Jobs} {c c' : Channel} {trace : List (Jobs × ℕ)} (job : ℕ)
      → has_capacity c ≡ true
      → (Queue.pop now jobs c.queue).2 ≡ some job
      → c.throttle ≡ 0
      → Yields now (Queue.pop now jobs c.queue).0 (started now jobs c job) trace jobs' c'
      → Yields now jobs c (((Queue.pop now jobs c.queue).0, job) ∷ trace) jobs' c'

-- What a consumer makes of the jobs.
abbrev pub feed : {S : Type 0} → (Jobs → ℕ → S → S) → List (Jobs × ℕ) → S → S
feed consume [] s = s
feed consume ((jobs, job) ∷ trace) s = feed consume trace (consume jobs job s)

-- A result of the loop that comes from a run of it.
abbrev pub IsRun :
    {S : Type 0} → (Jobs → ℕ → S → S) → ℕ → Jobs → Channel → S → Jobs × Channel × S → Type 0
IsRun consume now jobs c s r =
    (trace : List (Jobs × ℕ)) × Yields now jobs c trace r.0 r.1 × (r.2 ≡ feed consume trace s)

module _ {S : Type 0} (consume : Jobs → ℕ → S → S) where
  proceed :
      {now : ℕ} {jobs : Jobs} {c : Channel} {s : S} {r : Jobs × Channel × S} (job : ℕ)
      → has_capacity c ≡ true
      → (Queue.pop now jobs c.queue).2 ≡ some job
      → c.throttle ≡ 0
      → IsRun consume now
          (Queue.pop now jobs c.queue).0
          (started now jobs c job)
          (consume (Queue.pop now jobs c.queue).0 job s)
          r
      → IsRun consume now jobs c s r
  proceed job some_room found free (trace, run, fed) = (_, more job some_room found free run, fed)

  -- With fuel above the entries of its heaps the loop ends by one of its own tests, and hands each
  -- job to the consumer in turn.
  pub yield_jobs-IsRun :
      (fuel now : ℕ) (jobs : Jobs) (c : Channel) (s : S)
      → size c.queue < fuel
      → IsRun consume now jobs c s (yield_jobs consume fuel now jobs c s)
  unfolding yield_jobs
  yield_jobs-IsRun zero now jobs c s h = elim h [ ]
  yield_jobs-IsRun (suc fuel) now jobs c s h = elim (Bool-cases (has_capacity c)) [
    | inr taken ↦ rw taken ([], full taken, refl)
    | inl some_room ↦ rw some_room (elim (Option-cases (Queue.pop now jobs c.queue).2) [
      | inl nothing ↦ rw nothing ([], dry some_room nothing, refl)
      | inr (job, found) ↦ elim (Bool-cases (c.throttle == 0)) [
        | inr slow ↦ rw (found, slow) (_, throttled job some_room found (ground arith), refl)
        | inl free ↦
            rw (found, free)
              (proceed job some_room found (ground arith) (
                yield_jobs-IsRun fuel now (Queue.pop now jobs c.queue).0 (started now jobs c job)
                  (consume (Queue.pop now jobs c.queue).0 job s)
                  (omega (arith, size-pop now jobs c.queue job found))))
      ]
    ])
  ]
