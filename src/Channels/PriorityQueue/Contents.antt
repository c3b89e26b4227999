-- ===== src/Channels/PriorityQueue/Contents.antt =====
-- The queue as a set of objects, and the invariant that ties its three fields together.
use others_addons.Base.{
  ℕ, ◌≡◌, refl, inl, inr, Bool, true, false, not, ◌&&◌, ◌||◌, List, [], ◌∷◌, Option, none, some,
  arith, ◌==◌, ==_iff, Bool-cases, contains, discard, IsUnique, contains-discard, contains-add,
  discard-IsUnique, add-IsUnique,
}
use others_addons.Channels.PriorityQueue.{PriorityQueue, empty, heappush, member, add, remove}

-- The heap holds the known objects, each once, and only known objects are removed.
pub record IsValid (q : PriorityQueue) : Type 0 where
  pub heap_unique : IsUnique q.heap
  pub known_unique : IsUnique q.known
  pub removed_unique : IsUnique q.removed
  pub heap-known : (x : ℕ) → contains x q.heap ≡ contains x q.known
  pub removed-known : (x : ℕ) → contains x q.removed ≡ true → contains x q.known ≡ true

pub empty-IsValid : IsValid empty
empty-IsValid = record {
  heap_unique = tt;
  known_unique = tt;
  removed_unique = tt;
  heap-known = λ x. refl;
  removed-known = λ x h. h;
}

pub contains-heappush :
    (lt : ℕ → ℕ → Bool) (x o : ℕ) (h : List ℕ)
    → contains x (heappush lt o h) ≡ (x == o || contains x h)
unfolding heappush contains
contains-heappush lt x o [] = refl
contains-heappush lt x o (y ∷ h) = ground (arith, contains-heappush lt x o h)

heappush-IsUnique :
    (lt : ℕ → ℕ → Bool) (o : ℕ) (h : List ℕ)
    → contains o h ≡ false
    → IsUnique h
    → IsUnique (heappush lt o h)
unfolding heappush contains
heappush-IsUnique lt o [] new u = (refl, tt)
heappush-IsUnique lt o (y ∷ h) new u =
    ground (arith, heappush-IsUnique lt o h, contains-heappush lt y o h)

pub add-IsValid : (lt : ℕ → ℕ → Bool) (o : ℕ) (q : PriorityQueue) → IsValid q → IsValid (add lt o q)
unfolding add
add-IsValid lt o q v = elim (Bool-cases (contains o q.known)) [
  | inl old ↦ rw old (record {
    heap_unique = v.heap_unique;
    known_unique = v.known_unique;
    removed_unique = discard-IsUnique o q.removed v.removed_unique;
    heap-known = v.heap-known;
    removed-known = λ x h. ground (arith, contains-discard x o q.removed, v.removed-known x);
  })
  | inr new ↦ rw new (record {
    heap_unique = heappush-IsUnique lt o q.heap (ground (arith, v.heap-known o)) v.heap_unique;
    known_unique = add-IsUnique o q.known v.known_unique;
    removed_unique = discard-IsUnique o q.removed v.removed_unique;
    heap-known = λ x.
        ground (arith, contains-heappush lt x o q.heap, contains-add x o q.known, v.heap-known x);
    removed-known = λ x h.
        ground (arith, contains-discard x o q.removed, contains-add x o q.known, v.removed-known x);
  })
]

pub remove-IsValid : (o : ℕ) (q : PriorityQueue) → IsValid q → IsValid (remove o q)
unfolding remove
remove-IsValid o q v = elim (Bool-cases (contains o q.known)) [
  | inl old ↦ rw old (record {
    heap_unique = v.heap_unique;
    known_unique = v.known_unique;
    removed_unique = add-IsUnique o q.removed v.removed_unique;
    heap-known = v.heap-known;
    removed-known =
        λ x h. ground (arith, contains-add x o q.removed, v.removed-known x, ==_iff x o);
  })
  | inr new ↦ rw new v
]

-- The queue as a set: `add` and `remove` do what they say, whatever was removed before.
pub member-add :
    (lt : ℕ → ℕ → Bool) (x o : ℕ) (q : PriorityQueue)
    → member x (add lt o q) ≡ (x == o || member x q)
unfolding add member
member-add lt x o q =
    ground (arith, contains-discard x o q.removed, contains-add x o q.known, ==_iff x o)

pub member-remove :
    (x o : ℕ) (q : PriorityQueue) → member x (remove o q) ≡ (not (x == o) && member x q)
unfolding remove member
member-remove x o q = ground (arith, contains-add x o q.removed, ==_iff x o)

-- Taking the first object off the heap.
pub drop_head-IsValid :
    (o : ℕ) (h known removed : List ℕ)
    → IsValid (record { heap = o ∷ h; known = known; removed = removed })
    → IsValid (record { heap = h; known = discard o known; removed = discard o removed })
unfolding contains
drop_head-IsValid o h known removed v = record {
  heap_unique = v.heap_unique.1;
  known_unique = discard-IsUnique o known v.known_unique;
  removed_unique = discard-IsUnique o removed v.removed_unique;
  heap-known =
      λ x. ground (arith, contains-discard x o known, v.heap-known x, ==_iff x o, v.heap_unique.0);
  removed-known = λ x m.
      ground (arith, contains-discard x o known, contains-discard x o removed, v.removed-known x);
}

-- What `pop` promises of the queue before, the queue after and the object returned.
pub data Pops (q q' : PriorityQueue) : Option ℕ → Type 0 where
  drained : ((x : ℕ) → member x q ≡ false) → ((x : ℕ) → member x q' ≡ false) → Pops q q' none
  taken :
      (o : ℕ)
      → member o q ≡ true
      → ((x : ℕ) → member x q' ≡ (not (x == o) && member x q))
      → Pops q q' (some o)

pub taken_member :
    {q q' : PriorityQueue} {r : Option ℕ} (o : ℕ)
    → Pops q q' r
    → r ≡ some o
    → (member o q ≡ true) × ((x : ℕ) → member x q' ≡ (not (x == o) && member x q))
taken_member o (drained b a) e = absurd (cc)
taken_member {q} {q'} o (taken p m a) e = (rw (p-o) at m, λ x. rw p-o at (a x))
  where
    p-o : p ≡ o
    p-o = cc

pub drained_member :
    {q q' : PriorityQueue} {r : Option ℕ} (x : ℕ) → Pops q q' r → r ≡ none → member x q ≡ false
drained_member x (drained b a) e = b x
drained_member x (taken p m a) e = absurd (cc)

abbrev pub names : Option ℕ → ℕ → Bool
names none x = false
names (some o) x = x == o

pub member-Pops :
    {q q' : PriorityQueue} {r : Option ℕ} (x : ℕ)
    → Pops q q' r
    → member x q' ≡ (not (names r x) && member x q)
member-Pops x (drained b a) = ground (arith, b x, a x)
member-Pops x (taken o m a) = a x
