-- ===== src/Channels/PriorityQueue/Known.antt =====
-- Which objects the heap of a priority queue still knows, removed ones included.
use others_addons.Base.{
  ℕ, ◌≡◌, inl, inr, Bool, true, false, ◌||◌, List, [], ◌∷◌, some, arith, ◌==◌, ==_iff, Bool-cases,
  contains, discard, contains-discard, contains-add, IsSubset,
}
use others_addons.Channels.PriorityQueue.{
  PriorityQueue, member, peek_loop, peek, add, remove, pop_loop, pop,
}

pub known-add :
    (lt : ℕ → ℕ → Bool) (x o : ℕ) (q : PriorityQueue)
    → contains x (add lt o q).known ≡ (x == o || contains x q.known)
unfolding add
known-add lt x o q = ground (arith, contains-add x o q.known, ==_iff x o)

pub known-remove : (o : ℕ) (q : PriorityQueue) → (remove o q).known ≡ q.known
unfolding remove
known-remove o q = ground arith

known-pop_loop : (h known removed : List ℕ) → IsSubset (pop_loop h known removed).0.known known
unfolding pop_loop
known-pop_loop [] known removed x m = m
known-pop_loop (o ∷ h) known removed x m =
    ground
      (arith, known-pop_loop h (discard o known) (discard o removed) x, contains-discard x o known)

known-pop_loop_taken :
    (h known removed : List ℕ) (o : ℕ)
    → (pop_loop h known removed).1 ≡ some o
    → contains o (pop_loop h known removed).0.known ≡ false
unfolding pop_loop
known-pop_loop_taken [] known removed o e = absurd (cc)
known-pop_loop_taken (y ∷ h) known removed o e = elim (Bool-cases (contains y removed)) [
  | inl gone ↦
      rw gone (known-pop_loop_taken h (discard y known) (discard y removed) o (rw gone at e))
  | inr live ↦ rw live (ground (arith, contains-discard o y known, ==_iff o y))
]

known-peek_loop : (h known removed : List ℕ) → IsSubset (peek_loop h known removed).0.known known
unfolding peek_loop
known-peek_loop [] known removed x m = m
known-peek_loop (o ∷ h) known removed x m =
    ground
      (arith, known-peek_loop h (discard o known) (discard o removed) x, contains-discard x o known)

pub known-pop : (q : PriorityQueue) → IsSubset (pop q).0.known q.known
unfolding pop
known-pop q = known-pop_loop q.heap q.known q.removed

pub known-peek : (q : PriorityQueue) → IsSubset (peek q).0.known q.known
unfolding peek
known-peek q = known-peek_loop q.heap q.known q.removed

pub known-pop_taken :
    (q : PriorityQueue) (o : ℕ) → (pop q).1 ≡ some o → contains o (pop q).0.known ≡ false
unfolding pop
known-pop_taken q o e = known-pop_loop_taken q.heap q.known q.removed o e

pub member-known : (x : ℕ) (q : PriorityQueue) → member x q ≡ true → contains x q.known ≡ true
unfolding member
member-known x q m = ground arith
