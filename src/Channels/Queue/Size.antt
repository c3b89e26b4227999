-- ===== src/Channels/Queue/Size.antt =====
-- The heaps of a channel queue shrink with every job that `pop` returns, so that a loop over `pop`
-- ends.
use others_addons.Base.{
  ℕ, zero, suc, ◌+◌, ◌≤◌, ◌<◌, ◌≡◌, refl, inl, inr, Bool, true, false, List, [], ◌∷◌, some, arith,
  if◌then◌else◌, Option-cases, discard, length,
}
use others_addons.Channels.PriorityQueue.{PriorityQueue, heappush}
use others_addons.Channels.PriorityQueue
use others_addons.Channels.PriorityQueue.Pop.{pop_shrinks}
use others_addons.Channels.Job.{Jobs, before, set_no_eta}
use others_addons.Channels.Queue.{
  ChannelQueue, promote, promote_due, take, wait_or_take, pop_ready, pop,
}

-- The entries of the two heaps, removed ones included.
abbrev pub size : ChannelQueue → ℕ
size q = length q.queue.heap + length q.eta_queue.heap

length-heappush :
    (lt : ℕ → ℕ → Bool) (o : ℕ) (h : List ℕ) → length (heappush lt o h) ≡ suc (length h)
unfolding heappush
length-heappush lt o [] = refl
length-heappush lt o (x ∷ h) = ground (arith, length-heappush lt o h)

length-add :
    (lt : ℕ → ℕ → Bool) (o : ℕ) (q : PriorityQueue)
    → length (PriorityQueue.add lt o q).heap ≤ length q.heap + 1
unfolding PriorityQueue.add
length-add lt o q = ground (arith, length-heappush lt o q.heap)

length-peek_loop :
    (h known removed : List ℕ) → length (PriorityQueue.peek_loop h known removed).0.heap ≤ length h
unfolding PriorityQueue.peek_loop
length-peek_loop [] known removed = omega arith
length-peek_loop (o ∷ h) known removed =
    ground (arith, length-peek_loop h (discard o known) (discard o removed))

length-peek : (q : PriorityQueue) → length (PriorityQueue.peek q).0.heap ≤ length q.heap
unfolding PriorityQueue.peek
length-peek q = length-peek_loop q.heap q.known q.removed

length-pop_loop :
    (h known removed : List ℕ) → length (PriorityQueue.pop_loop h known removed).0.heap ≤ length h
unfolding PriorityQueue.pop_loop
length-pop_loop [] known removed = omega arith
length-pop_loop (o ∷ h) known removed =
    ground (arith, length-pop_loop h (discard o known) (discard o removed))

length-pop : (q : PriorityQueue) → length (PriorityQueue.pop q).0.heap ≤ length q.heap
unfolding PriorityQueue.pop
length-pop q = length-pop_loop q.heap q.known q.removed

size-promote : (jobs : Jobs) (q : ChannelQueue) → size (promote jobs q).1 ≤ size q
unfolding promote
size-promote jobs q = elim (Option-cases (PriorityQueue.pop q.eta_queue).1) [
  | inl nothing ↦ rw (nothing, promote) (omega (arith, length-pop q.eta_queue))
  | inr (o, found) ↦
      rw (found, promote)
        (omega (
          arith,
          pop_shrinks q.eta_queue o found,
          length-add (before (set_no_eta jobs o)) o q.queue,
        ))
]

size-promote_due :
    (fuel now : ℕ) (jobs : Jobs) (q : ChannelQueue) → size (promote_due fuel now jobs q).1 ≤ size q
unfolding promote_due
size-promote_due zero now jobs q = omega arith
size-promote_due (suc fuel) now jobs q =
    let looked : ChannelQueue = record q { eta_queue = (PriorityQueue.peek q.eta_queue).0 } in
    ground (
      arith,
      length-peek q.eta_queue,
      size-promote jobs looked,
      size-promote_due fuel now (promote jobs looked).0 (promote jobs looked).1,
    )

size-take :
    (jobs : Jobs) (q : ChannelQueue) (o : ℕ)
    → (take jobs q).2 ≡ some o
    → size (take jobs q).1 < size q
unfolding take
size-take jobs q o e = omega (arith, pop_shrinks q.queue o e)

size-wait_or_take :
    (jobs : Jobs) (q : ChannelQueue) (o : ℕ)
    → (wait_or_take jobs q).2 ≡ some o
    → size (wait_or_take jobs q).1 < size q
unfolding wait_or_take
size-wait_or_take jobs q o e = ground (
  arith,
  length-peek q.eta_queue,
  length-peek q.queue,
  pop_shrinks (PriorityQueue.peek q.queue).0 o,
)

size-either :
    (jobs : Jobs) (q : ChannelQueue) (o : ℕ) (b : Bool)
    → (let r = if b then wait_or_take jobs q else take jobs q in r.2 ≡ some o → size r.1 < size q)
size-either jobs q o true e = size-wait_or_take jobs q o e
size-either jobs q o false e = size-take jobs q o e

size-pop_ready :
    (jobs : Jobs) (q : ChannelQueue) (o : ℕ)
    → (pop_ready jobs q).2 ≡ some o
    → size (pop_ready jobs q).1 < size q
unfolding pop_ready
size-pop_ready jobs q o e = size-either jobs q o _ e

-- Every job that `pop` returns makes the heaps smaller.
pub size-pop :
    (now : ℕ) (jobs : Jobs) (q : ChannelQueue) (o : ℕ)
    → (pop now jobs q).2 ≡ some o
    → size (pop now jobs q).1 < size q
unfolding pop
size-pop now jobs q o e =
    let moved = promote_due (length q.eta_queue.heap) now jobs q in
    omega (
      arith,
      size-pop_ready moved.0 moved.1 o e,
      size-promote_due (length q.eta_queue.heap) now jobs q,
    )
