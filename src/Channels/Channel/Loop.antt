-- ===== src/Channels/Channel/Loop.antt =====
-- The loop of `get_jobs_to_run` (queue_job/jobrunner/channels.py), in one statement.
use others_addons.Base.{ℕ, ◌<◌, ◌≡◌, List}
use others_addons.Channels.Job.{Jobs}
use others_addons.Channels.Queue.Invariant.{IsValid}
use others_addons.Channels.Queue.Size.{size}
use others_addons.Channels.Channel.{Channel, yield_jobs}
use others_addons.Channels.Channel.Run.{feed, yield_jobs-IsRun}
use others_addons.Channels.Channel.Yields.{Moves, Yields-Moves}
use others_addons.Channels.Channel.Throttle.{Ends, Yields-Ends}

-- With fuel above the entries of its heaps the loop ends by one of its own tests. The jobs that it
-- has yielded, each handed to the consumer in turn, have moved from the queue to the running jobs,
-- and none of them has an eta in the future. It stops only if the channel has no capacity left, or
-- is paused after one job, or no job of its queue is ready, or the queue is sequential and a job
-- that waits for its eta goes before every ready one.
pub yield_jobs_lem :
    {S : Type 0} (consume : Jobs → ℕ → S → S) (fuel now : ℕ) (jobs : Jobs) (c : Channel) (s : S)
    → size c.queue < fuel
    → IsValid jobs c.queue
    → (let r = yield_jobs consume fuel now jobs c s in
        (trace : List (Jobs × ℕ)) × Moves now jobs c trace r.0 r.1
        × Ends now r.0 r.1 trace
        × (r.2 ≡ feed consume trace s))
yield_jobs_lem consume fuel now jobs c s h v =
    let (trace, run, fed) = yield_jobs-IsRun consume fuel now jobs c s h in
    (trace, Yields-Moves run v, Yields-Ends run v, fed)
