-- ===== src/Delay/Graph/Build.antt =====
-- Graphs as `add_vertex` and `add_edge` build them (queue_job/delay.py).
use others_addons.Base.{
  ℕ, ◌≡◌, refl, sym, ap, subst, ◌∙◌, true, ◌&&◌, ◌||◌, List, [], ◌∷◌, ◌++◌, ◌==◌, ==_iff, contains,
  contains-add, add-IsUnique, contains-append, append-IsUnique, IsUnique, All, arith, Bool-cases,
  inl, inr,
}
use others_addons.Delay.Graph.{Graph, vertices, neighbours, add_vertex, add_neighbour, add_edge}
use others_addons.Delay.Graph.Pending.{IsGraph}

vertices-append : (g : Graph) (v : ℕ) → vertices (g ++ (v, []) ∷ []) ≡ vertices g ++ v ∷ []
vertices-append [] v = refl
vertices-append ((u, ns) ∷ g) v = ap (λ l. u ∷ l) (vertices-append g v)

neighbours-append :
    (p n v : ℕ) (g : Graph)
    → contains n (neighbours p (g ++ (v, []) ∷ [])) ≡ contains n (neighbours p g)
unfolding neighbours contains
neighbours-append p n v [] = ground arith
neighbours-append p n v ((u, ns) ∷ g) = ground (arith, neighbours-append p n v g)

vertices-add_vertex :
    (n v : ℕ) (g : Graph)
    → contains n (vertices (add_vertex v g)) ≡ (n == v || contains n (vertices g))
unfolding add_vertex contains
vertices-add_vertex n v g = elim (Bool-cases (contains v (vertices g))) [
  | inl old ↦
      rw (old, add_vertex) (ground (arith, old, ==_iff n v, ap (λ k. contains k (vertices g))))
  | inr new ↦
      rw (new, add_vertex)
        (ground
          (arith, ap (contains n) (vertices-append g v), contains-append n (vertices g) (v ∷ [])))
]

neighbours-add_vertex :
    (p n v : ℕ) (g : Graph)
    → contains n (neighbours p (add_vertex v g)) ≡ contains n (neighbours p g)
unfolding add_vertex
neighbours-add_vertex p n v g = elim (Bool-cases (contains v (vertices g))) [
  | inl old ↦ rw (old, add_vertex) refl
  | inr new ↦ rw (new, add_vertex) (neighbours-append p n v g)
]

vertices-add_neighbour :
    (parent child : ℕ) (g : Graph) → vertices (add_neighbour parent child g) ≡ vertices g
unfolding add_neighbour
vertices-add_neighbour parent child [] = refl
vertices-add_neighbour parent child ((v, ns) ∷ g) = elim (Bool-cases (v == parent)) [
  | inl here ↦ rw here refl
  | inr away ↦ rw away (ap (λ l. v ∷ l) (vertices-add_neighbour parent child g))
]

neighbours-add_neighbour :
    (p n parent child : ℕ) (g : Graph)
    → contains parent (vertices g) ≡ true
    → contains n (neighbours p (add_neighbour parent child g))
      ≡ (contains n (neighbours p g) || (p == parent && n == child))
unfolding add_neighbour neighbours contains
neighbours-add_neighbour p n parent child [] h = absurd (ground (arith, h))
neighbours-add_neighbour p n parent child ((v, ns) ∷ g) h = ground (
  arith,
  h,
  neighbours-add_neighbour p n parent child g,
  contains-add n child ns,
  ==_iff v parent,
  ==_iff parent v,
  ==_iff v p,
  ==_iff p parent,
)

abbrev AreUnique : Graph → Type 0
AreUnique = All (λ (entry : ℕ × List ℕ). IsUnique entry.1)

append-AreUnique : (g : Graph) (v : ℕ) → AreUnique g → AreUnique (g ++ (v, []) ∷ [])
append-AreUnique [] v u = (tt, tt)
append-AreUnique (entry ∷ g) v u = (u.0, append-AreUnique g v u.1)

add_vertex-IsGraph : (v : ℕ) (g : Graph) → IsGraph g → IsGraph (add_vertex v g)
unfolding add_vertex contains
add_vertex-IsGraph v g graph = elim (Bool-cases (contains v (vertices g))) [
  | inl old ↦ rw (old, add_vertex) graph
  | inr new ↦
      rw (new, add_vertex)
        (record {
          keys_unique = subst IsUnique (sym (vertices-append g v)) (
              append-IsUnique (vertices g) (v ∷ []) graph.keys_unique (refl, tt)
                (λ n m. ground (arith, m, new, ==_iff n v, ap (λ k. contains k (vertices g)))));
          sets_unique = append-AreUnique g v graph.sets_unique;
          closed = λ p n m. ground (
            arith,
            m,
            neighbours-append p n v g,
            graph.closed p n,
            ap (contains n) (vertices-append g v),
            contains-append n (vertices g) (v ∷ []),
          );
        })
]

add_neighbour-AreUnique :
    (parent child : ℕ) (g : Graph) → AreUnique g → AreUnique (add_neighbour parent child g)
unfolding add_neighbour
add_neighbour-AreUnique parent child [] u = tt
add_neighbour-AreUnique parent child ((v, ns) ∷ g) u = elim (Bool-cases (v == parent)) [
  | inl here ↦ rw here (add-IsUnique child ns u.0, u.1)
  | inr away ↦ rw away (u.0, add_neighbour-AreUnique parent child g u.1)
]

-- `add_edge` keeps a graph well formed, and adds exactly the edge, and its ends to the vertices.
pub add_edge-IsGraph :
    (parent child : ℕ) (g : Graph)
    → IsGraph g
    → IsGraph (add_edge parent child g)
      × ((n : ℕ)
          → contains n (vertices (add_edge parent child g))
            ≡ (n == parent || (n == child || contains n (vertices g))))
      × ((p n : ℕ)
          → contains n (neighbours p (add_edge parent child g))
            ≡ (contains n (neighbours p g) || (p == parent && n == child)))
unfolding add_edge
add_edge-IsGraph parent child g graph =
    let g' = add_vertex parent (add_vertex child g) in
    let graph' =
      add_vertex-IsGraph parent (add_vertex child g) (add_vertex-IsGraph child g graph) in
    let key = vertices-add_vertex parent parent (add_vertex child g) in
    let has_parent : contains parent (vertices g') ≡ true =
      ground (arith, key, ==_iff parent parent) in
    let in_vertices : (n : ℕ)
        → contains n (vertices (add_neighbour parent child g'))
          ≡ (n == parent || (n == child || contains n (vertices g))) =
      λ n.
        ap (contains n) (vertices-add_neighbour parent child g')
        ∙ vertices-add_vertex n parent (add_vertex child g)
        ∙ ap (λ b. n == parent || b) (vertices-add_vertex n child g) in
    let in_neighbours : (p n : ℕ)
        → contains n (neighbours p (add_neighbour parent child g'))
          ≡ (contains n (neighbours p g) || (p == parent && n == child)) =
      λ p n.
        neighbours-add_neighbour p n parent child g' has_parent
        ∙ ap (λ b. b || (p == parent && n == child))
            (neighbours-add_vertex p n parent (add_vertex child g)
              ∙ neighbours-add_vertex p n child g) in
    (
      record {
        keys_unique =
            subst IsUnique (sym (vertices-add_neighbour parent child g')) graph'.keys_unique;
        sets_unique = add_neighbour-AreUnique parent child g' graph'.sets_unique;
        closed = λ p n m. ground (arith, m, in_neighbours p n, in_vertices n, graph.closed p n);
      },
      in_vertices,
      in_neighbours,
    )

pub empty-IsGraph : IsGraph []
unfolding neighbours contains
empty-IsGraph = record {
  keys_unique = tt;
  sets_unique = tt;
  closed = λ p n m. absurd (ground (arith, m));
}
