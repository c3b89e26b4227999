-- ===== src/Delay/Graph/Relax.antt =====
-- The loop over the neighbours of a vertex (queue_job/delay.py, `topological_sort`).
use others_addons.Base.{
  ℕ, ◌-◌, ◌≡◌, refl, sym, ap, ◌∙◌, false, ◌&&◌, List, [], ◌∷◌, ◌++◌, if◌then◌else◌, ◌==◌, ==_iff,
  contains, IsUnique, arith, Bool-cases, inl, inr,
}
use others_addons.Delay.Graph.{relax, set_count}

-- The neighbours whose last parent is the vertex.
unfoldable pub freed : List ℕ → (ℕ → ℕ) → List ℕ
freed [] counts = []
freed (n ∷ ns) counts = let rest = freed ns counts in if counts n == 1 then n ∷ rest else rest

pub contains-freed :
    (k : ℕ) (ns : List ℕ) (counts : ℕ → ℕ)
    → contains k (freed ns counts) ≡ (contains k ns && counts k == 1)
unfolding contains freed
contains-freed k [] counts = refl
contains-freed k (n ∷ ns) counts = elim (Bool-cases (k == n)) [
  | inl same ↦
      let e : k ≡ n = ground (arith, ==_iff k n) in
      ground (arith, contains-freed k ns counts, e, ap counts e)
  | inr other ↦ ground (arith, contains-freed k ns counts, other)
]

pub freed-IsUnique : (ns : List ℕ) (counts : ℕ → ℕ) → IsUnique ns → IsUnique (freed ns counts)
unfolding freed
freed-IsUnique [] counts u = tt
freed-IsUnique (n ∷ ns) counts u =
    ground (arith, freed-IsUnique ns counts u.1, contains-freed n ns counts, u.0)

freed-set_count :
    (n c : ℕ) (ns : List ℕ) (counts : ℕ → ℕ)
    → contains n ns ≡ false
    → freed ns (set_count n c counts) ≡ freed ns counts
unfolding freed contains
freed-set_count n c [] counts h = refl
freed-set_count n c (x ∷ ns) counts h = elim (Bool-cases (x == n)) [
  | inl same ↦ absurd (ground (arith, h, same, ==_iff x n, ==_iff n x))
  | inr other ↦ rw other (
      ap (λ l. if counts x == 1 then x ∷ l else l)
        (freed-set_count n c ns counts (ground (arith, h))))
]

append_nil : (xs : List ℕ) → xs ≡ xs ++ []
append_nil [] = refl
append_nil (x ∷ xs) = ap (λ l. x ∷ l) (append_nil xs)

append_push : (xs : List ℕ) (n : ℕ) (ys : List ℕ) → (xs ++ n ∷ []) ++ ys ≡ xs ++ n ∷ ys
append_push [] n ys = refl
append_push (x ∷ xs) n ys = ap (λ l. x ∷ l) (append_push xs n ys)

pub queue-relax :
    (ns queue : List ℕ) (counts : ℕ → ℕ)
    → IsUnique ns
    → (relax ns queue counts).0 ≡ queue ++ freed ns counts
unfolding relax freed
queue-relax [] queue counts u = append_nil queue
queue-relax (n ∷ ns) queue counts u =
    let same = freed-set_count n (counts n - 1) ns counts u.0 in
    elim (Bool-cases (counts n == 1)) [
      | inl one ↦
          rw (one, relax)
            (queue-relax ns (queue ++ n ∷ []) (set_count n (counts n - 1) counts) u.1
              ∙ ap (λ l. (queue ++ n ∷ []) ++ l) same
              ∙ append_push queue n (freed ns counts))
      | inr more ↦
          rw (more, relax)
            (queue-relax ns queue (set_count n (counts n - 1) counts) u.1
              ∙ ap (λ l. queue ++ l) same)
    ]

pub counts-relax :
    (ns queue : List ℕ) (counts : ℕ → ℕ) (k : ℕ)
    → IsUnique ns
    → (relax ns queue counts).1 k ≡ (if contains k ns then counts k - 1 else counts k)
unfolding relax contains
counts-relax [] queue counts k u = refl
counts-relax (n ∷ ns) queue counts k u =
    let queue' = if counts n == 1 then queue ++ n ∷ [] else queue in
    counts-relax ns queue' (set_count n (counts n - 1) counts) k u.1 ∙ elim (Bool-cases (k == n)) [
      | inl same ↦
          let e : k ≡ n = ground (arith, ==_iff k n) in
          let fresh : contains k ns ≡ false = ap (λ x. contains x ns) e ∙ u.0 in
          rw same (rw fresh (ap (λ x. counts x - 1) (sym e)))
      | inr other ↦ rw other refl
    ]
