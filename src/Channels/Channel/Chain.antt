-- ===== src/Channels/Channel/Chain.antt =====
-- Where a job is in a channel and in its ancestors, and where each operation puts it.
use others_addons.Base.{
  ℕ, ◌≡◌, ◌≢◌, ◌⊎◌, inl, inr, Bool, true, false, List, [], ◌∷◌, arith, Bool-cases, All, contains,
  discard, add as add_to_set, contains-discard, contains-add,
}
use others_addons.Channels.Job.{Jobs}
use others_addons.Channels.Queue
use others_addons.Channels.Queue.Members.{member-add, member-remove}
use others_addons.Channels.Channel.{Channel, remove, set_done, set_pending, set_running, set_failed}

pub data Place : Type 0 where
  absent waiting running failed mixed : Place

abbrev pub place_of : Bool → Bool → Bool → Place
place_of false false false = absent
place_of true false false = waiting
place_of false true false = running
place_of false false true = failed
place_of _ _ _ = mixed

-- Whether a job is in the queue of a channel, or in one of its two sets, or in more than one.
abbrev pub place : ℕ → Channel → Place
place job c = place_of (Queue.member job c.queue) (contains job c.running) (contains job c.failed)

-- The places of a job in a channel and its ancestors, nearest first.
abbrev pub places : ℕ → List Channel → List Place
places job [] = []
places job (c ∷ parents) = place job c ∷ places job parents

abbrev pub IsNowhere : List Place → Type 0
IsNowhere = All (λ p. p ≡ absent)

abbrev pub IsRunning : List Place → Type 0
IsRunning = All (λ p. p ≡ running)

-- From a channel where the job runs: it runs in the ancestors up to one in whose queue it waits,
-- or up to the root.
abbrev pub IsDownstream : List Place → Type 0
IsDownstream [] = Unit {0}
IsDownstream (p ∷ ps) = ((p ≡ waiting) × IsNowhere ps) ⊎ ((p ≡ running) × IsDownstream ps)

-- In a channel the job is in one place at most; only if it runs there the ancestors know it.
abbrev pub IsPlaced : List Place → Type 0
IsPlaced [] = Unit {0}
IsPlaced (p ∷ ps) = ((p ≡ running) × IsDownstream ps) ⊎ ((p ≢ running) × (p ≢ mixed) × IsNowhere ps)

-- The job is in this place of the channel, and in none of an ancestor.
abbrev pub IsOnly : Place → List Place → Type 0
IsOnly place [] = Unit {0}
IsOnly place (p ∷ ps) = (p ≡ place) × IsNowhere ps

-- `remove` (and so `set_done`) takes the job out of the channel and of every ancestor.
pub remove-IsNowhere : (job : ℕ) (chain : List Channel) → IsNowhere (places job (remove job chain))
unfolding remove
remove-IsNowhere job [] = tt
remove-IsNowhere job (c ∷ parents) = (
  ground (
    arith,
    member-remove job job c.queue,
    contains-discard job job c.running,
    contains-discard job job c.failed,
  ),
  remove-IsNowhere job parents,
)

pub set_done-IsNowhere :
    (job : ℕ) (chain : List Channel) → IsNowhere (places job (set_done job chain))
unfolding set_done
set_done-IsNowhere job chain = remove-IsNowhere job chain

waiting-IsOnly :
    (job : ℕ) (c : Channel) (ps : List Place)
    → IsPlaced (place job c ∷ ps)
    → Queue.member job c.queue ≡ true
    → IsOnly waiting (place job c ∷ ps)
waiting-IsOnly job c ps (inl (r, d)) m = absurd (ground arith)
waiting-IsOnly job c ps (inr (r, s, n)) m = (ground arith, n)

failed-IsOnly :
    (job : ℕ) (c : Channel) (ps : List Place)
    → IsPlaced (place job c ∷ ps)
    → contains job c.failed ≡ true
    → IsOnly failed (place job c ∷ ps)
failed-IsOnly job c ps (inl (r, d)) m = absurd (ground arith)
failed-IsOnly job c ps (inr (r, s, n)) m = (ground arith, n)

-- `set_pending` leaves the job waiting in its channel and unknown to every ancestor.
pub set_pending-IsOnly :
    (jobs : Jobs) (job : ℕ) (chain : List Channel)
    → IsPlaced (places job chain)
    → IsOnly waiting (places job (set_pending jobs job chain))
unfolding set_pending
set_pending-IsOnly jobs job [] p = tt
set_pending-IsOnly jobs job (c ∷ parents) p = elim (Bool-cases (Queue.member job c.queue)) [
  | inl old ↦ rw old (waiting-IsOnly job c (places job parents) p old)
  | inr new ↦ rw new (
    ground (
      arith,
      member-add jobs job job c.queue,
      contains-discard job job c.running,
      contains-discard job job c.failed,
    ),
    remove-IsNowhere job parents,
  )
]

-- `set_failed` leaves the job failed in its channel and unknown to every ancestor.
pub set_failed-IsOnly :
    (job : ℕ) (chain : List Channel)
    → IsPlaced (places job chain)
    → IsOnly failed (places job (set_failed job chain))
unfolding set_failed
set_failed-IsOnly job [] p = tt
set_failed-IsOnly job (c ∷ parents) p = elim (Bool-cases (contains job c.failed)) [
  | inl old ↦ rw old (failed-IsOnly job c (places job parents) p old)
  | inr new ↦ rw new (
    ground (
      arith,
      member-remove job job c.queue,
      contains-discard job job c.running,
      contains-add job job c.failed,
    ),
    remove-IsNowhere job parents,
  )
]

started :
    (job : ℕ) (c : Channel)
    → contains job c.running ≡ false
    → place job (record c {
      queue = Queue.remove job c.queue;
      running = add_to_set job c.running;
      failed = discard job c.failed;
    })
      ≡ running
started job c new = ground (
  arith,
  member-remove job job c.queue,
  contains-add job job c.running,
  contains-discard job job c.failed,
)

IsNowhere-IsRunning :
    (job : ℕ) (chain : List Channel)
    → IsNowhere (places job chain)
    → IsRunning (places job (set_running job chain))
unfolding set_running
IsNowhere-IsRunning job [] n = tt
IsNowhere-IsRunning job (c ∷ parents) n = elim (Bool-cases (contains job c.running)) [
  | inl old ↦ absurd (ground (arith, n.0))
  | inr new ↦ rw new (started job c new, IsNowhere-IsRunning job parents n.1)
]

-- `set_running` makes a job run in its channel and in every ancestor, unless it runs in the
-- channel already; then it changes nothing.
pub set_running-IsRunning :
    (job : ℕ) (c : Channel) (parents : List Channel)
    → IsPlaced (places job (c ∷ parents))
    → ((place job c ≢ running) × IsRunning (places job (set_running job (c ∷ parents))))
      ⊎ ((place job c ≡ running) × (set_running job (c ∷ parents) ≡ c ∷ parents))
unfolding set_running
set_running-IsRunning job c parents (inl (r, d)) = inr (r, ground arith)
set_running-IsRunning job c parents (inr (r, s, n)) = elim (Bool-cases (contains job c.running)) [
  | inl old ↦ absurd (ground arith)
  | inr new ↦ inl (r, rw new (started job c new, IsNowhere-IsRunning job parents n))
]
