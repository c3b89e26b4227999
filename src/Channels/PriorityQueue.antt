-- ===== src/Channels/PriorityQueue.antt =====
-- `PriorityQueue` (queue_job/jobrunner/channels.py): a heap from which any object can be removed.
-- An object is its reference, a number; `lt` is the order of the objects at the time of the call.
-- The heap of `heapq` is the list of its objects in the order in which `heappop` returns them:
-- the class reads it only by `heap[0]`, `heappop` and `heappush`. This is the order of `heapq` if of any
-- two objects one comes before the other; of two that are equal `heapq` may return either first.
pub mod Contents
pub mod Pop
pub mod Known
pub mod Order
pub mod Refinement
use others_addons.Base.{
  ℕ, ◌-◌, ◌≡◌, Bool, true, false, not, ◌&&◌, List, [], ◌∷◌, Option, none, some, if◌then◌else◌,
  length, contains, discard, add as add_to_set,
}

-- `_known` are all objects in the heap, removed ones included; `_removed` those that were removed.
pub record PriorityQueue : Type 0 where
  pub heap : List ℕ
  pub known : List ℕ
  pub removed : List ℕ

abbrev pub empty : PriorityQueue
empty = record { heap = []; known = []; removed = [] }

-- `heappush`: behind the objects that do not come after it.
unfoldable pub heappush : (ℕ → ℕ → Bool) → ℕ → List ℕ → List ℕ
heappush lt o [] = o ∷ []
heappush lt o (x ∷ h) = let rest = heappush lt o h in if lt o x then o ∷ x ∷ h else x ∷ rest

-- `__len__`
unfoldable pub len : PriorityQueue → ℕ
len q = length q.known - length q.removed

-- `__contains__`
unfoldable pub member : ℕ → PriorityQueue → Bool
member o q = contains o q.known && not (contains o q.removed)

-- The loop of `__getitem__`, by recursion on the heap. `none` is the `IndexError`.
unfoldable pub peek_loop : List ℕ → List ℕ → List ℕ → PriorityQueue × Option ℕ
peek_loop [] known removed = (record { heap = []; known = known; removed = removed }, none)
peek_loop (o ∷ h) known removed =
    let dropped = peek_loop h (discard o known) (discard o removed) in
    if contains o removed
    then dropped
    else (record { heap = o ∷ h; known = known; removed = removed }, some o)

-- `self[0]`
unfoldable pub peek : PriorityQueue → PriorityQueue × Option ℕ
unfolding peek_loop
peek q = peek_loop q.heap q.known q.removed

unfoldable pub add : (ℕ → ℕ → Bool) → ℕ → PriorityQueue → PriorityQueue
unfolding heappush
add lt o q = if contains o q.known then record q { removed = discard o q.removed } else record {
  heap = heappush lt o q.heap;
  known = add_to_set o q.known;
  removed = discard o q.removed;
}

unfoldable pub remove : ℕ → PriorityQueue → PriorityQueue
remove o q = if contains o q.known then record q { removed = add_to_set o q.removed } else q

-- The loop of `pop`, by recursion on the heap.
unfoldable pub pop_loop : List ℕ → List ℕ → List ℕ → PriorityQueue × Option ℕ
pop_loop [] known removed = (record { heap = []; known = known; removed = removed }, none)
pop_loop (o ∷ h) known removed =
    let dropped = pop_loop h (discard o known) (discard o removed) in
    if contains o removed
    then dropped
    else (record { heap = h; known = discard o known; removed = removed }, some o)

unfoldable pub pop : PriorityQueue → PriorityQueue × Option ℕ
unfolding pop_loop
pop q = pop_loop q.heap q.known q.removed
