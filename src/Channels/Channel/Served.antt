-- ===== src/Channels/Channel/Served.antt =====
-- Every ready job of a channel with room is run (queue_job/jobrunner/channels.py).
use others_addons.Base.{ℕ, ◌≡◌, refl, ap, subst, ◌∙◌, inl, inr, true, false, List, arith, contains}
use others_addons.Channels.Job.{Jobs}
use others_addons.Channels.Queue.Invariant.{IsValid}
use others_addons.Channels.Queue.Pop.{is_ready}
use others_addons.Channels.Channel.{Channel, has_capacity, check_pause, yield_unpaused}
use others_addons.Channels.Channel.Run.{IsRun}
use others_addons.Channels.Channel.Yields.{Moves, Yields-Moves}
use others_addons.Channels.Channel.Throttle.{
  Ends, no_room, paused, none_ready, waits_for_eta, Yields-Ends, throttle-Yields,
  yield_unpaused_cases,
}

-- Without a throttle there is no pause.
check_pause-free : (now : ℕ) (c : Channel) → c.throttle ≡ 0 → check_pause now c ≡ (c, false)
unfolding check_pause
check_pause-free now c free = rw free refl

-- The loop has run every ready job, if there is capacity left behind it.
served :
    (now : ℕ) (jobs jobs' : Jobs) (c c' : Channel) (trace : List (Jobs × ℕ))
    → Moves now jobs c trace jobs' c'
    → Ends now jobs' c' trace
    → c'.throttle ≡ 0
    → c.queue.sequential ≡ false
    → has_capacity c' ≡ true
    → (x : ℕ) → is_ready now jobs c.queue x ≡ true
    → contains x c'.running ≡ true
served now jobs jobs' c c' trace m (no_room h) free loose roomy x ready =
    absurd (ground (arith, h, roomy))
served now jobs jobs' c c' trace m (paused h p l) free loose roomy x ready = absurd (h free)
served now jobs jobs' c c' trace m (none_ready n) free loose roomy x ready =
    ground (arith, n x, m.queue x, m.due x, m.running x, ready)
served now jobs jobs' c c' trace m (waits_for_eta sq e h l f) free loose roomy x ready =
    absurd (ground (arith, m.sequential, sq, loose))

-- A channel that still has capacity after a call of `get_jobs_to_run` has left no job of its queue
-- behind: each job that was ready, its eta not in the future, is running, when the channel has no
-- throttle and its queue is not sequential.
pub yield_unpaused-serves :
    {S : Type 0} (consume : Jobs → ℕ → S → S) (now : ℕ) (jobs : Jobs) (c : Channel) (s : S)
    → IsValid jobs c.queue
    → c.throttle ≡ 0
    → c.queue.sequential ≡ false
    → has_capacity (yield_unpaused consume now jobs c s).1 ≡ true
    → (x : ℕ) → is_ready now jobs c.queue x ≡ true
    → contains x (yield_unpaused consume now jobs c s).1.running ≡ true
yield_unpaused-serves consume now jobs c s valid free loose roomy x ready =
    elim (yield_unpaused_cases consume now jobs c s) [
      | inl (waiting, e) ↦
          absurd (ground (arith, waiting, ap (λ p. p.1) (check_pause-free now c free)))
      | inr run ↦
          let (trace, yields, fed) =
            subst (λ p. IsRun consume now jobs p s (yield_unpaused consume now jobs c s))
              (ap (λ p. p.0) (check_pause-free now c free)) run in
          served now jobs (yield_unpaused consume now jobs c s).0 c
            (yield_unpaused consume now jobs c s).1 trace (Yields-Moves yields valid)
            (Yields-Ends yields valid) (throttle-Yields yields ∙ free) loose roomy x ready
    ]
