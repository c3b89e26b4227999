-- ===== src/Channels/PriorityQueue/Pop.antt =====
-- `pop`, `self[0]` and `len` seen through `in`: which object is taken, and what stays.
use others_addons.Base.{
  ℕ, ◌≤◌, ◌<◌, ◌==◌, ◌≡◌, refl, sym, ap, ◌∙◌, inl, inr, true, false, not, ◌&&◌, List, [], ◌∷◌,
  Option, some, arith, ==_iff, Bool-cases, length, contains, discard, difference, contains-discard,
  contains-difference, contains_none, length-difference, discard_absent,
}
use others_addons.Channels.PriorityQueue.{
  PriorityQueue, len, member, peek_loop, peek, pop_loop, pop,
}
use others_addons.Channels.PriorityQueue.Contents.{IsValid, drop_head-IsValid, Pops, drained, taken}

abbrev state : List ℕ → List ℕ → List ℕ → PriorityQueue
state h known removed = record { heap = h; known = known; removed = removed }

module _ (o : ℕ) (h known removed : List ℕ) where
  -- Dropping a removed object changes the set of no queue.
  member_drop :
      contains o removed ≡ true
      → (x : ℕ)
      → member x (state h (discard o known) (discard o removed))
        ≡ member x (state (o ∷ h) known removed)
  unfolding member
  member_drop gone x =
      ground (arith, contains-discard x o known, contains-discard x o removed, ==_iff x o)

  head-known : IsValid (state (o ∷ h) known removed) → contains o known ≡ true
  unfolding contains
  head-known v = ground (arith, v.heap-known o)

  taken-head :
      IsValid (state (o ∷ h) known removed)
      → contains o removed ≡ false
      → Pops (state (o ∷ h) known removed) (state h (discard o known) removed) (some o)
  unfolding member
  taken-head v live =
      taken o (ground (arith, head-known v)) λ x. ground (arith, contains-discard x o known)

  taken-head-IsValid :
      IsValid (state (o ∷ h) known removed)
      → contains o removed ≡ false
      → IsValid (state h (discard o known) removed)
  taken-head-IsValid v live =
      rw (discard_absent o removed live) at (drop_head-IsValid o h known removed v)

Pops-mono :
    {q p q' : PriorityQueue} {r : Option ℕ}
    → ((x : ℕ) → member x p ≡ member x q)
    → Pops p q' r
    → Pops q q' r
Pops-mono same (drained before after) = drained (λ x. sym (same x) ∙ before x) after
Pops-mono same (taken o here after) =
    taken o (sym (same o) ∙ here) (λ x. after x ∙ ap (λ b. not (x == o) && b) (same x))

no_heap :
    (known removed : List ℕ)
    → IsValid (state [] known removed)
    → (x : ℕ) → member x (state [] known removed) ≡ false
unfolding member contains
no_heap known removed v x = ground (arith, v.heap-known x)

pop_loop-Pops :
    (h known removed : List ℕ)
    → IsValid (state h known removed)
    → Pops (state h known removed) (pop_loop h known removed).0 (pop_loop h known removed).1
unfolding pop_loop
pop_loop-Pops [] known removed v = drained (no_heap known removed v) (no_heap known removed v)
pop_loop-Pops (o ∷ h) known removed v = elim (Bool-cases (contains o removed)) [
  | inl gone ↦ rw gone (
      Pops-mono (member_drop o h known removed gone) (
        pop_loop-Pops h (discard o known) (discard o removed)
          (drop_head-IsValid o h known removed v)))
  | inr live ↦ rw live (taken-head o h known removed v live)
]

pop_loop-IsValid :
    (h known removed : List ℕ)
    → IsValid (state h known removed)
    → IsValid (pop_loop h known removed).0
unfolding pop_loop
pop_loop-IsValid [] known removed v = v
pop_loop-IsValid (o ∷ h) known removed v = elim (Bool-cases (contains o removed)) [
  | inl gone ↦ rw gone (
      pop_loop-IsValid h (discard o known) (discard o removed)
        (drop_head-IsValid o h known removed v))
  | inr live ↦ rw live (taken-head-IsValid o h known removed v live)
]

-- `pop` returns nothing exactly if the queue holds nothing, and takes away the object it returns.
pub pop-Pops : (q : PriorityQueue) → IsValid q → Pops q (pop q).0 (pop q).1
unfolding pop
pop-Pops q v = pop_loop-Pops q.heap q.known q.removed v

pub pop-IsValid : (q : PriorityQueue) → IsValid q → IsValid (pop q).0
unfolding pop
pop-IsValid q v = pop_loop-IsValid q.heap q.known q.removed v

peek_loop-IsValid :
    (h known removed : List ℕ)
    → IsValid (state h known removed)
    → IsValid (peek_loop h known removed).0
unfolding peek_loop
peek_loop-IsValid [] known removed v = v
peek_loop-IsValid (o ∷ h) known removed v = elim (Bool-cases (contains o removed)) [
  | inl gone ↦ rw gone (
      peek_loop-IsValid h (discard o known) (discard o removed)
        (drop_head-IsValid o h known removed v))
  | inr live ↦ rw live v
]

pub peek-IsValid : (q : PriorityQueue) → IsValid q → IsValid (peek q).0
unfolding peek
peek-IsValid q v = peek_loop-IsValid q.heap q.known q.removed v

member-peek_loop :
    (h known removed : List ℕ) (x : ℕ)
    → member x (peek_loop h known removed).0 ≡ member x (state h known removed)
unfolding peek_loop
member-peek_loop [] known removed x = refl
member-peek_loop (o ∷ h) known removed x = elim (Bool-cases (contains o removed)) [
  | inl gone ↦ rw gone (
      member-peek_loop h (discard o known) (discard o removed) x
      ∙ member_drop o h known removed gone x)
  | inr live ↦ rw live
]

-- Looking at the first object changes no membership.
pub member-peek : (q : PriorityQueue) (x : ℕ) → member x (peek q).0 ≡ member x q
unfolding peek
member-peek q x = member-peek_loop q.heap q.known q.removed x

pop-peek_loop :
    (h known removed : List ℕ)
    → let p = peek_loop h known removed in
      (p.1 ≡ (pop_loop h known removed).1) × (pop p.0 ≡ pop_loop h known removed)
unfolding peek_loop pop pop_loop
pop-peek_loop [] known removed = (refl, refl)
pop-peek_loop (o ∷ h) known removed = elim (Bool-cases (contains o removed)) [
  | inl gone ↦ rw gone (pop-peek_loop h (discard o known) (discard o removed))
  | inr live ↦ simp live (refl, refl)
]

-- `self[0]` is the object that `pop` returns, and looking first does not change what `pop` does.
pub pop-peek : (q : PriorityQueue) → ((peek q).1 ≡ (pop q).1) × (pop (peek q).0 ≡ pop q)
unfolding peek pop
pop-peek q = pop-peek_loop q.heap q.known q.removed

abbrev pub members : PriorityQueue → List ℕ
members q = difference q.known q.removed

pub contains-members : (q : PriorityQueue) (x : ℕ) → contains x (members q) ≡ member x q
unfolding member
contains-members q x = contains-difference x q.known q.removed

-- `len` counts the objects that are `in` the queue.
pub len-members : (q : PriorityQueue) → IsValid q → len q ≡ length (members q)
unfolding len
len-members q v =
    omega
      (arith, length-difference q.known q.removed v.known_unique v.removed_unique v.removed-known)

-- A queue whose `len` is 0 holds nothing.
pub member-len_zero :
    (q : PriorityQueue) (x : ℕ) → IsValid q → (len q == 0) ≡ true → member x q ≡ false
member-len_zero q x v h =
    ground
      (arith, len-members q v, contains_none (members q) x, contains-members q x, ==_iff (len q) 0)

-- A queue that holds something has a `len` above 0.
pub len-pos : (q : PriorityQueue) (x : ℕ) → IsValid q → member x q ≡ true → (len q == 0) ≡ false
len-pos q x v m = ground (arith, member-len_zero q x v)

pub member-no_heap :
    (q : PriorityQueue) (x : ℕ) → IsValid q → length q.heap ≤ 0 → member x q ≡ false
unfolding member
member-no_heap q x v h = ground (arith, v.heap-known x, contains_none q.heap x h)

pop_loop_shrinks :
    (h known removed : List ℕ) (o : ℕ)
    → (pop_loop h known removed).1 ≡ some o
    → length (pop_loop h known removed).0.heap < length h
unfolding pop_loop
pop_loop_shrinks [] known removed o e = absurd (cc)
pop_loop_shrinks (y ∷ h) known removed o e =
    ground (arith, pop_loop_shrinks h (discard y known) (discard y removed) o)

-- Every object that `pop` returns comes off the heap.
pub pop_shrinks :
    (q : PriorityQueue) (o : ℕ) → (pop q).1 ≡ some o → length (pop q).0.heap < length q.heap
unfolding pop
pop_shrinks q o e = pop_loop_shrinks q.heap q.known q.removed o e
