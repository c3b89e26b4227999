-- ===== src/Channels/Channel/Transition.antt =====
-- The state transitions of `ChannelManager.notify` (queue_job/jobrunner/channels.py): the operation
-- on a channel and its ancestors that a new state of a job causes.
use others_addons.Base.{
  ℕ, ◌≡◌, ◌≢◌, refl, sym, ap, subst, ◌⊎◌, inl, inr, false, List, [], ◌∷◌, Option, none, some, arith,
  ◌==◌, ==_iff, Bool-cases, contains, discard, add as add_to_set, contains-discard, contains-add,
}
use others_addons.Jobs.State.{
  State, wait_dependencies, pending, enqueued, started, done, cancelled, failed,
}
use others_addons.Channels.Job.{Jobs}
use others_addons.Channels.Queue
use others_addons.Channels.Queue.Members.{member-add, member-remove}
use others_addons.Channels.Channel.{Channel, remove, set_done, set_pending, set_running, set_failed}
use others_addons.Channels.Channel.Chain.{
  Place, place, place_of, places, absent, IsNowhere, IsRunning, IsDownstream, IsPlaced, IsOnly,
  remove-IsNowhere, set_pending-IsOnly, set_failed-IsOnly, set_running-IsRunning,
}
use others_addons.Channels.Channel.Chain

-- `none` is a job that is no longer in the database.
unfoldable pub transition : Jobs → Option State → ℕ → List Channel → List Channel
unfolding set_done
transition jobs none job chain = set_done job chain
transition jobs (some done) job chain = set_done job chain
transition jobs (some cancelled) job chain = set_done job chain
transition jobs (some pending) job chain = set_pending jobs job chain
transition jobs (some enqueued) job chain = set_running job chain
transition jobs (some started) job chain = set_running job chain
transition jobs (some failed) job chain = set_failed job chain
transition jobs (some wait_dependencies) job chain = chain

-- Another job of a channel whose three collections lose or gain only `job`.
place-kept :
    (x job : ℕ) (c : Channel) (q : Queue.ChannelQueue) (running failed' : List ℕ)
    → (Queue.member x q ≡ Queue.member x c.queue)
    → (contains x running ≡ contains x c.running)
    → (contains x failed' ≡ contains x c.failed)
    → place x (record c { queue = q; running = running; failed = failed' }) ≡ place x c
place-kept x job c q running failed' e f g = rw (e, f, g)

module _ (x job : ℕ) (other : (x == job) ≡ false) where
  member-remove_other :
      (q : Queue.ChannelQueue) → Queue.member x (Queue.remove job q) ≡ Queue.member x q
  member-remove_other q = ground (arith, member-remove x job q)

  member-add_other :
      (jobs : Jobs) (q : Queue.ChannelQueue)
      → Queue.member x (Queue.add jobs job q) ≡ Queue.member x q
  member-add_other jobs q = ground (arith, member-add jobs x job q)

  contains-discard_other : (s : List ℕ) → contains x (discard job s) ≡ contains x s
  contains-discard_other s = ground (arith, contains-discard x job s)

  contains-add_other : (s : List ℕ) → contains x (add_to_set job s) ≡ contains x s
  contains-add_other s = ground (arith, contains-add x job s)

  ruleset kept = (member-remove_other, member-add_other, contains-discard_other, contains-add_other)

  places-remove : (chain : List Channel) → places x (remove job chain) ≡ places x chain
  unfolding remove
  places-remove [] = refl
  places-remove (c ∷ parents) = simp (kept, places-remove parents)

  places-set_running : (chain : List Channel) → places x (set_running job chain) ≡ places x chain
  unfolding set_running
  places-set_running [] = refl
  places-set_running (c ∷ parents) = elim (Bool-cases (contains job c.running)) [
    | inl old ↦ rw old
    | inr new ↦ rw new (simp (kept, places-set_running parents))
  ]

  places-set_pending :
      (jobs : Jobs) (chain : List Channel) → places x (set_pending jobs job chain) ≡ places x chain
  unfolding set_pending
  places-set_pending jobs [] = refl
  places-set_pending jobs (c ∷ parents) = elim (Bool-cases (Queue.member job c.queue)) [
    | inl old ↦ rw old
    | inr new ↦ rw new (simp (kept, places-remove parents))
  ]

  places-set_failed : (chain : List Channel) → places x (set_failed job chain) ≡ places x chain
  unfolding set_failed
  places-set_failed [] = refl
  places-set_failed (c ∷ parents) = elim (Bool-cases (contains job c.failed)) [
    | inl old ↦ rw old
    | inr new ↦ rw new (simp (kept, places-remove parents))
  ]

  -- A transition of one job moves no other job.
  pub places-transition :
      (jobs : Jobs) (state : Option State) (chain : List Channel)
      → places x (transition jobs state job chain) ≡ places x chain
  unfolding transition
  places-transition jobs none chain = places-remove chain
  places-transition jobs (some done) chain = places-remove chain
  places-transition jobs (some cancelled) chain = places-remove chain
  places-transition jobs (some pending) chain = places-set_pending jobs chain
  places-transition jobs (some enqueued) chain = places-set_running chain
  places-transition jobs (some started) chain = places-set_running chain
  places-transition jobs (some failed) chain = places-set_failed chain
  places-transition jobs (some wait_dependencies) chain = refl

-- The job runs in the channel itself.
abbrev pub RunsHere : List Place → Type 0
RunsHere [] = ⊥
RunsHere (p ∷ ps) = p ≡ Chain.running

-- The job runs everywhere now; if it ran in the channel before, nothing has changed.
abbrev pub Runs : List Place → List Place → Type 0
Runs before after = (¬ RunsHere before × IsRunning after) ⊎ (RunsHere before × (after ≡ before))

-- Where the job of a transition is afterwards, from where it was before.
abbrev pub Reaches : Option State → List Place → List Place → Type 0
Reaches (some pending) before after = IsOnly Chain.waiting after
Reaches (some failed) before after = IsOnly Chain.failed after
Reaches (some enqueued) before after = Runs before after
Reaches (some started) before after = Runs before after
Reaches (some wait_dependencies) before after = after ≡ before
Reaches _ before after = IsNowhere after

set_running-Runs :
    (job : ℕ) (chain : List Channel)
    → IsPlaced (places job chain)
    → Runs (places job chain) (places job (set_running job chain))
unfolding set_running
set_running-Runs job [] p = inl ((λ r. r), tt)
set_running-Runs job (c ∷ parents) p = elim (set_running-IsRunning job c parents p) [
  | inl (away, running) ↦ inl (away, running)
  | inr (here, same) ↦ inr (here, ap (places job) same)
]

-- Of a job that is in one place of its channel at most, and in its ancestors only as it runs below: with
-- the state `pending` or `failed` it waits or is failed in the channel and is in no ancestor afterwards; with
-- `enqueued` or `started` it runs in the channel and in every ancestor, unless it ran in the channel
-- before, when nothing changes; with `wait_dependencies` nothing changes; and otherwise it is nowhere.
pub transition-Reaches :
    (jobs : Jobs) (state : Option State) (job : ℕ) (chain : List Channel)
    → IsPlaced (places job chain)
    → Reaches state (places job chain) (places job (transition jobs state job chain))
unfolding transition
transition-Reaches jobs none job chain p = remove-IsNowhere job chain
transition-Reaches jobs (some done) job chain p = remove-IsNowhere job chain
transition-Reaches jobs (some cancelled) job chain p = remove-IsNowhere job chain
transition-Reaches jobs (some pending) job chain p = set_pending-IsOnly jobs job chain p
transition-Reaches jobs (some enqueued) job chain p = set_running-Runs job chain p
transition-Reaches jobs (some started) job chain p = set_running-Runs job chain p
transition-Reaches jobs (some failed) job chain p = set_failed-IsOnly job chain p
transition-Reaches jobs (some wait_dependencies) job chain p = refl

IsNowhere-IsPlaced : (ps : List Place) → IsNowhere ps → IsPlaced ps
IsNowhere-IsPlaced [] n = tt
IsNowhere-IsPlaced (p ∷ ps) n = inr (ground (arith, n.0), ground (arith, n.0), n.1)

IsRunning-IsDownstream : (ps : List Place) → IsRunning ps → IsDownstream ps
IsRunning-IsDownstream [] r = tt
IsRunning-IsDownstream (p ∷ ps) r = inr (r.0, IsRunning-IsDownstream ps r.1)

IsRunning-IsPlaced : (ps : List Place) → IsRunning ps → IsPlaced ps
IsRunning-IsPlaced [] r = tt
IsRunning-IsPlaced (p ∷ ps) r = inl (r.0, IsRunning-IsDownstream ps r.1)

IsOnly-waiting-IsPlaced : (ps : List Place) → IsOnly Chain.waiting ps → IsPlaced ps
IsOnly-waiting-IsPlaced [] o = tt
IsOnly-waiting-IsPlaced (p ∷ ps) o = inr (ground (arith, o.0), ground (arith, o.0), o.1)

IsOnly-failed-IsPlaced : (ps : List Place) → IsOnly Chain.failed ps → IsPlaced ps
IsOnly-failed-IsPlaced [] o = tt
IsOnly-failed-IsPlaced (p ∷ ps) o = inr (ground (arith, o.0), ground (arith, o.0), o.1)

Reaches-IsPlaced :
    (state : Option State) (before after : List Place)
    → IsPlaced before
    → Reaches state before after
    → IsPlaced after
Reaches-IsPlaced none before after p r = IsNowhere-IsPlaced after r
Reaches-IsPlaced (some done) before after p r = IsNowhere-IsPlaced after r
Reaches-IsPlaced (some cancelled) before after p r = IsNowhere-IsPlaced after r
Reaches-IsPlaced (some pending) before after p r = IsOnly-waiting-IsPlaced after r
Reaches-IsPlaced (some failed) before after p r = IsOnly-failed-IsPlaced after r
Reaches-IsPlaced (some enqueued) before after p (inl (away, r)) = IsRunning-IsPlaced after r
Reaches-IsPlaced (some enqueued) before after p (inr (here, e)) = subst IsPlaced (sym e) p
Reaches-IsPlaced (some started) before after p (inl (away, r)) = IsRunning-IsPlaced after r
Reaches-IsPlaced (some started) before after p (inr (here, e)) = subst IsPlaced (sym e) p
Reaches-IsPlaced (some wait_dependencies) before after p e = subst IsPlaced (sym e) p

-- A transition of a job that is in one place of its channel at most, and in no ancestor unless it
-- runs below, keeps it so; every other job, of this or of another channel, stays where it is in the
-- channel and in each of its ancestors, wherever that is.
pub transition-IsPlaced :
    (jobs : Jobs) (state : Option State) (job : ℕ) (chain : List Channel)
    → IsPlaced (places job chain)
    → IsPlaced (places job (transition jobs state job chain))
      × ((x : ℕ) → x ≢ job → places x (transition jobs state job chain) ≡ places x chain)
transition-IsPlaced jobs state job chain p = (
  Reaches-IsPlaced state _ _ p (transition-Reaches jobs state job chain p),
  λ x other. places-transition x job (ground (arith, other, ==_iff x job)) jobs state chain,
)
