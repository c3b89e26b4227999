-- ===== src/Channels/PriorityQueue/Order.antt =====
-- The order in which a priority queue returns its objects.
use others_addons.Base.{
  ℕ, ◌≡◌, ◌≢◌, ◌⊎◌, inl, inr, Bool, true, false, List, [], ◌∷◌, some, arith, ==_iff, Bool-cases,
  contains, discard, contains-discard,
}
use others_addons.Channels.PriorityQueue.{
  PriorityQueue, heappush, member, peek_loop, peek, add, remove, pop_loop, pop,
}
use others_addons.Channels.PriorityQueue.Contents.{IsValid, drop_head-IsValid, contains-heappush}

-- A strict order of objects.
pub record IsStrict (lt : ℕ → ℕ → Bool) : Type 0 where
  pub irreflexive : (a : ℕ) → lt a a ≡ false
  pub transitive : (a b c : ℕ) → lt a b ≡ true → lt b c ≡ true → lt a c ≡ true

-- Of any two objects one comes before the other.
abbrev pub IsTotal : (ℕ → ℕ → Bool) → Type 0
IsTotal lt = (a b : ℕ) → a ≢ b → (lt a b ≡ true) ⊎ (lt b a ≡ true)

abbrev pub IsFirst : (ℕ → ℕ → Bool) → ℕ → List ℕ → Type 0
IsFirst lt x h = (y : ℕ) → contains y h ≡ true → lt y x ≡ false

-- No object of the heap comes before one that stands in front of it.
abbrev pub IsSorted : (ℕ → ℕ → Bool) → List ℕ → Type 0
IsSorted lt [] = Unit {0}
IsSorted lt (x ∷ h) = IsFirst lt x h × IsSorted lt h

pub IsSorted-congr :
    (lt lt' : ℕ → ℕ → Bool) (h : List ℕ)
    → ((x y : ℕ) → contains x h ≡ true → contains y h ≡ true → lt' x y ≡ lt x y)
    → IsSorted lt h
    → IsSorted lt' h
unfolding contains
IsSorted-congr lt lt' [] same s = tt
IsSorted-congr lt lt' (x ∷ h) same s = (
  λ y m. ground (arith, same y x, s.0 y m, ==_iff x x),
  IsSorted-congr lt lt' h (λ y z m n. same y z (ground arith) (ground arith)) s.1,
)

module _ (lt : ℕ → ℕ → Bool) (strict : IsStrict lt) where
  IsFirst-push : (o x : ℕ) (h : List ℕ) → lt o x ≡ true → IsFirst lt x h → IsFirst lt o (x ∷ h)
  unfolding contains
  IsFirst-push o x h before first y m = ground (
    arith,
    strict.irreflexive x,
    strict.transitive x o x,
    strict.transitive y o x,
    first y,
    ==_iff y x,
  )

  heappush-IsSorted : (o : ℕ) (h : List ℕ) → IsSorted lt h → IsSorted lt (heappush lt o h)
  unfolding heappush contains
  heappush-IsSorted o [] s = (λ y m. ground arith, tt)
  heappush-IsSorted o (x ∷ h) s = elim (Bool-cases (lt o x)) [
    | inl before ↦ rw before (IsFirst-push o x h before s.0, s)
    | inr after ↦ rw after (
      λ y m. ground (arith, contains-heappush lt y o h, s.0 y, ==_iff y o),
      heappush-IsSorted o h s.1,
    )
  ]

  pub add-IsSorted :
      (o : ℕ) (q : PriorityQueue) → IsSorted lt q.heap → IsSorted lt (add lt o q).heap
  unfolding add
  add-IsSorted o q s = elim (Bool-cases (contains o q.known)) [
    | inl old ↦ rw old s
    | inr new ↦ rw new (heappush-IsSorted o q.heap s)
  ]

  pub remove-IsSorted :
      (o : ℕ) (q : PriorityQueue) → IsSorted lt q.heap → IsSorted lt (remove o q).heap
  unfolding remove
  remove-IsSorted o q s = elim (Bool-cases (contains o q.known)) [
    | inl old ↦ rw old s
    | inr new ↦ rw new s
  ]

  pop_loop-IsSorted :
      (h known removed : List ℕ) → IsSorted lt h → IsSorted lt (pop_loop h known removed).0.heap
  unfolding pop_loop
  pop_loop-IsSorted [] known removed s = tt
  pop_loop-IsSorted (o ∷ h) known removed s = elim (Bool-cases (contains o removed)) [
    | inl gone ↦ rw gone (pop_loop-IsSorted h (discard o known) (discard o removed) s.1)
    | inr live ↦ rw live s.1
  ]

  pub pop-IsSorted : (q : PriorityQueue) → IsSorted lt q.heap → IsSorted lt (pop q).0.heap
  unfolding pop
  pop-IsSorted q s = pop_loop-IsSorted q.heap q.known q.removed s

  peek_loop-IsSorted :
      (h known removed : List ℕ) → IsSorted lt h → IsSorted lt (peek_loop h known removed).0.heap
  unfolding peek_loop
  peek_loop-IsSorted [] known removed s = tt
  peek_loop-IsSorted (o ∷ h) known removed s = elim (Bool-cases (contains o removed)) [
    | inl gone ↦ rw gone (peek_loop-IsSorted h (discard o known) (discard o removed) s.1)
    | inr live ↦ rw live s
  ]

  pub peek-IsSorted : (q : PriorityQueue) → IsSorted lt q.heap → IsSorted lt (peek q).0.heap
  unfolding peek
  peek-IsSorted q s = peek_loop-IsSorted q.heap q.known q.removed s

  pop_loop_first :
      (h known removed : List ℕ) (o x : ℕ)
      → IsValid (record { heap = h; known = known; removed = removed })
      → IsSorted lt h
      → (pop_loop h known removed).1 ≡ some o
      → contains x known ≡ true
      → contains x removed ≡ false
      → lt x o ≡ false
  unfolding pop_loop contains
  pop_loop_first [] known removed o x v s e m n = absurd (cc)
  pop_loop_first (y ∷ h) known removed o x v s e m n = elim (Bool-cases (contains y removed)) [
    | inl gone ↦
        pop_loop_first h (discard y known) (discard y removed) o x
          (drop_head-IsValid y h known removed v) s.1 (rw gone at e)
          (ground (arith, contains-discard x y known, ==_iff x y))
          (ground (arith, contains-discard x y removed))
    | inr live ↦ ground (arith, v.heap-known x, s.0 x, strict.irreflexive o, ==_iff x y)
  ]

  -- The object that `pop` returns comes after no other object of the queue.
  pub pop_first :
      (q : PriorityQueue) (o x : ℕ)
      → IsValid q
      → IsSorted lt q.heap
      → (pop q).1 ≡ some o
      → member x q ≡ true
      → lt x o ≡ false
  unfolding pop member
  pop_first q o x v s e m =
      pop_loop_first q.heap q.known q.removed o x v s e (ground arith) (ground arith)
