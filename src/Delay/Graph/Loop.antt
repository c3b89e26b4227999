-- ===== src/Delay/Graph/Loop.antt =====
-- The `while` loop of `topological_sort` (queue_job/delay.py).
use others_addons.Base.{
  ℕ, zero, suc, ◌+◌, ◌≤◌, ◌≡◌, sym, ap, subst, ◌∙◌, Bool, true, false, ◌&&◌, ◌||◌, List, [], ◌∷◌,
  ◌==◌, ==_iff, contains, contains-append, append-IsUnique, IsUnique, length, length-difference,
  arith,
}
use others_addons.Delay.Graph.{Graph, vertices, neighbours, relax, sort_loop}
use others_addons.Delay.Graph.Pending.{
  IsGraph, neighbours-IsUnique, pending, pending_none, pending_step,
}
use others_addons.Delay.Graph.Relax.{
  freed, contains-freed, freed-IsUnique, queue-relax, counts-relax,
}

abbrev pub is_placed : List ℕ → List ℕ → ℕ → Bool
is_placed seen queue n = contains n seen || contains n queue

-- Between two rounds of the loop: what is counted, and that the vertices that wait for no parent are
-- those that are yielded or in the queue, each once.
pub record IsRound (g : Graph) (seen queue : List ℕ) (counts : ℕ → ℕ) : Type 0 where
  pub counted : (n : ℕ) → counts n ≡ pending seen n g
  pub free : (n : ℕ) → is_placed seen queue n ≡ true → pending seen n g ≡ 0
  pub all_free :
      (n : ℕ)
      → contains n (vertices g) ≡ true
      → pending seen n g ≡ 0
      → is_placed seen queue n ≡ true
  pub known : (n : ℕ) → is_placed seen queue n ≡ true → contains n (vertices g) ≡ true
  pub queue_unique : IsUnique queue
  pub seen_unique : IsUnique seen
  pub apart : (n : ℕ) → contains n queue ≡ true → contains n seen ≡ false

-- The vertices that are yielded, last first.
abbrev pub finish : List ℕ → List ℕ → List ℕ
finish seen [] = seen
finish seen (v ∷ out) = finish (v ∷ seen) out

-- Every vertex comes after all its parents.
abbrev pub IsOrdered : Graph → List ℕ → List ℕ → Type 0
IsOrdered g seen [] = Unit {0}
IsOrdered g seen (v ∷ out) =
    ((p : ℕ) → contains v (neighbours p g) ≡ true → contains p seen ≡ true)
    × IsOrdered g (v ∷ seen) out

module _ (g : Graph) (graph : IsGraph g) where
  round :
      (seen : List ℕ) (v : ℕ) (queue : List ℕ) (counts : ℕ → ℕ)
      → IsRound g seen (v ∷ queue) counts
      → IsRound g
          (v ∷ seen)
          (relax (neighbours v g) queue counts).0
          (relax (neighbours v g) queue counts).1
  unfolding contains
  round seen v queue counts r =
      let ns = neighbours v g in
      let u = neighbours-IsUnique v g graph.sets_unique in
      let q = queue-relax ns queue counts u in
      let fresh : contains v seen ≡ false = r.apart v (ground (arith, ==_iff v v)) in
      let joined : (n : ℕ)
          → contains n (relax ns queue counts).0
            ≡ (contains n queue || (contains n ns && counts n == 1)) =
        λ n.
          ap (contains n) q
          ∙ contains-append n queue (freed ns counts)
          ∙ ap (λ b. contains n queue || b) (contains-freed n ns counts) in
      record {
        counted = λ n. ground (
          arith,
          counts-relax ns queue counts n u,
          pending_step seen v n g graph.keys_unique fresh,
          r.counted n,
        );
        free = λ n m. ground (
          arith,
          joined n,
          pending_step seen v n g graph.keys_unique fresh,
          r.counted n,
          r.free n,
          ==_iff n v,
        );
        all_free = λ n k e. ground (
          arith,
          joined n,
          pending_step seen v n g graph.keys_unique fresh,
          r.counted n,
          r.all_free n k,
          ==_iff n v,
        );
        known = λ n m. ground (arith, joined n, r.known n, graph.closed v n, ==_iff n v);
        queue_unique = subst IsUnique (sym q) (
            append-IsUnique queue (freed ns counts) r.queue_unique.1 (freed-IsUnique ns counts u)
              (λ n m. ground (arith, contains-freed n ns counts, r.free n, r.counted n)));
        seen_unique = (fresh, r.seen_unique);
        apart = λ n m.
            ground
              (arith, joined n, r.apart n, r.free n, r.counted n, ==_iff n v, r.queue_unique.0);
      }

  not_full :
      (seen : List ℕ) (v : ℕ) (queue : List ℕ) (counts : ℕ → ℕ)
      → IsRound g seen (v ∷ queue) counts
      → suc (length seen) ≤ length (vertices g)
  unfolding contains
  not_full seen v queue counts r =
      let fresh : contains v seen ≡ false = r.apart v (ground (arith, ==_iff v v)) in
      omega (
        arith,
        length-difference (vertices g) (v ∷ seen) graph.keys_unique (fresh, r.seen_unique)
            (λ n m. r.known n (ground (arith, m))),
      )

  pub sort_loop-IsRound :
      (fuel : ℕ) (seen queue : List ℕ) (counts : ℕ → ℕ)
      → length (vertices g) ≤ fuel + length seen
      → IsRound g seen queue counts
      → (let out = sort_loop g fuel queue counts in
          IsOrdered g seen out × (counts' : ℕ → ℕ) × IsRound g (finish seen out) [] counts')
  unfolding sort_loop contains
  sort_loop-IsRound zero seen [] counts h r = (tt, counts, r)
  sort_loop-IsRound zero seen (v ∷ queue) counts h r =
      absurd (omega (arith, h, not_full seen v queue counts r))
  sort_loop-IsRound (suc fuel) seen [] counts h r = (tt, counts, r)
  sort_loop-IsRound (suc fuel) seen (v ∷ queue) counts h r =
      let next = relax (neighbours v g) queue counts in
      let (ordered, last, finished) =
        sort_loop-IsRound fuel (v ∷ seen) next.0 next.1 (omega (arith, h))
          (round seen v queue counts r) in
      (
        (λ p m. pending_none seen v p g (r.free v (ground (arith, ==_iff v v))) m, ordered),
        last,
        finished,
      )
