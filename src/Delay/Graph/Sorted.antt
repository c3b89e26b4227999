-- ===== src/Delay/Graph/Sorted.antt =====
-- What `topological_sort` yields (queue_job/delay.py).
use others_addons.Base.{
  ℕ, zero, suc, ◌<◌, ◌≡◌, refl, ap, ◌∙◌, true, false, ◌||◌, List, [], ◌∷◌, ==_iff, contains,
  contains-difference, difference, discard, discard-IsUnique, IsUnique, length, arith,
}
use others_addons.Delay.Graph.{
  Graph, vertices, neighbours, edges, dependency_vertices, root_vertices, depends_per_node,
  topological_sort,
}
use others_addons.Delay.Graph.Pending.{
  IsGraph, pending, pending_zero, neighbours_key, depends-pending, pending_root, root-pending,
}
use others_addons.Delay.Graph.Loop.{IsRound, IsOrdered, finish, sort_loop-IsRound}

contains-finish :
    (n : ℕ) (seen out : List ℕ) → contains n (finish seen out) ≡ (contains n seen || contains n out)
unfolding contains
contains-finish n seen [] = ground arith
contains-finish n seen (v ∷ out) = ground (arith, contains-finish n (v ∷ seen) out)

finish-IsUnique :
    (seen out : List ℕ)
    → IsUnique (finish seen out)
    → IsUnique seen × IsUnique out × ((n : ℕ) → contains n out ≡ true → contains n seen ≡ false)
unfolding contains
finish-IsUnique seen [] u = (u, tt, (λ n m. absurd (ground (arith, m))))
finish-IsUnique seen (v ∷ out) u =
    let (s, o, apart) = finish-IsUnique (v ∷ seen) out u in
    (
      s.1,
      (ground (arith, apart v, ==_iff v v), o),
      λ n m. ground (arith, m, apart n, s.0, ==_iff n v),
    )

length-vertices : (g : Graph) → length (vertices g) ≡ length g
length-vertices [] = refl
length-vertices ((v, ns) ∷ g) = ap (λ n. suc n) (length-vertices g)

difference-IsUnique : (s t : List ℕ) → IsUnique s → IsUnique (difference s t)
unfolding difference
difference-IsUnique s [] u = u
difference-IsUnique s (x ∷ t) u = difference-IsUnique (discard x s) t (discard-IsUnique x s u)

-- Every edge leads to a vertex of a higher rank.
abbrev pub IsAcyclic : Graph → (ℕ → ℕ) → Type 0
IsAcyclic g rank = (p n : ℕ) → contains n (neighbours p g) ≡ true → rank p < rank n

module _ (g : Graph) (graph : IsGraph g) where
  first-IsRound : IsRound g [] (root_vertices g) (depends_per_node (edges g))
  unfolding root_vertices contains
  first-IsRound =
      let root = λ (n : ℕ). contains-difference n (vertices g) (dependency_vertices g) in
      record {
        counted = λ n. depends-pending n g graph.sets_unique;
        free = λ n m. root-pending n g (ground (arith, m, root n));
        all_free = λ n k e. ground (arith, root n, k, pending_root n g e);
        known = λ n m. ground (arith, m, root n);
        queue_unique = difference-IsUnique (vertices g) (dependency_vertices g) graph.keys_unique;
        seen_unique = tt;
        apart = λ n m. refl;
      }

  sorted-IsRound :
      IsOrdered g [] (topological_sort g)
      × (counts : ℕ → ℕ) × IsRound g (finish [] (topological_sort g)) [] counts
  unfolding topological_sort
  sorted-IsRound =
      sort_loop-IsRound g graph (length g) [] (root_vertices g) (depends_per_node (edges g))
        (omega (arith, length-vertices g)) first-IsRound

  -- In a well-formed graph, also with cycles, `topological_sort` yields no vertex twice and only
  -- vertices of the graph, each after all the vertices that it depends on.
  pub topological_sort-IsOrdered :
      IsOrdered g [] (topological_sort g)
      × IsUnique (topological_sort g)
      × ((n : ℕ) → contains n (topological_sort g) ≡ true → contains n (vertices g) ≡ true)
  unfolding contains
  topological_sort-IsOrdered =
      let (ordered, _, r) = sorted-IsRound in
      let (_, u, _) = finish-IsUnique [] (topological_sort g) r.seen_unique in
      (ordered, u, λ n m. r.known n (ground (arith, m, contains-finish n [] (topological_sort g))))

  all_reached :
      (rank : ℕ → ℕ)
      → IsAcyclic g rank
      → (bound n : ℕ) → rank n < bound
      → contains n (vertices g) ≡ true
      → contains n (topological_sort g) ≡ true
  unfolding contains
  all_reached rank acyclic zero n h k = absurd (omega (arith, h))
  all_reached rank acyclic (suc bound) n h k =
      let (_, _, r) = sorted-IsRound in
      let out = topological_sort g in
      let waits : pending (finish [] out) n g ≡ 0 =
        pending_zero (finish [] out) n g graph.keys_unique (λ p m.
          contains-finish p [] out
          ∙ all_reached rank acyclic bound p (omega (arith, h, acyclic p n m))
              (neighbours_key p n g m)) in
      ground (arith, r.all_free n k waits, contains-finish n [] out)

  -- In a well-formed graph without cycles `topological_sort` yields all vertices.
  pub topological_sort-all :
      (rank : ℕ → ℕ)
      → IsAcyclic g rank
      → (n : ℕ) → contains n (topological_sort g) ≡ contains n (vertices g)
  unfolding contains
  topological_sort-all rank acyclic n =
      let (_, _, r) = sorted-IsRound in
      let out = topological_sort g in
      let reached : (bound k : ℕ)
          → rank k < bound
          → contains k (vertices g) ≡ true
          → contains k out ≡ true =
        all_reached rank acyclic in
      ground (arith, reached (suc (rank n)) n, topological_sort-IsOrdered.2 n)
