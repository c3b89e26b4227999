-- ===== src/Delay/Tests.antt =====
-- The theorems on graphs at a concrete input.
mod Delayables
use others_addons.Base.{
  ℕ, ◌≡◌, refl, ◌||◌, ◌&&◌, [], ◌∷◌, ◌==◌, contains, IsUnique, difference, add as add_to_set,
  discard, true, arith,
}
use others_addons.Delay.Graph.{Graph, vertices, neighbours, add_edge, topological_sort}
use others_addons.Delay.Graph.Pending.{IsGraph}
use others_addons.Delay.Graph.Build.{add_edge-IsGraph, empty-IsGraph}
use others_addons.Delay.Graph.Loop.{IsOrdered}
use others_addons.Delay.Graph.Sorted.{topological_sort-IsOrdered, topological_sort-all, IsAcyclic}

-- `1 → 2 → 3` and `1 → 3`
abbrev one_edge : Graph
one_edge = add_edge 1 2 []

abbrev two_edges : Graph
two_edges = add_edge 2 3 one_edge

abbrev three_edges : Graph
three_edges = add_edge 1 3 two_edges

sorts : topological_sort three_edges ≡ 1 ∷ 2 ∷ 3 ∷ []
unfolding topological_sort add_edge contains difference add_to_set discard
sorts = refl

one_edge-IsGraph : IsGraph one_edge
one_edge-IsGraph = (add_edge-IsGraph 1 2 [] empty-IsGraph).0

two_edges-IsGraph : IsGraph two_edges
two_edges-IsGraph = (add_edge-IsGraph 2 3 one_edge one_edge-IsGraph).0

three_edges-IsGraph : IsGraph three_edges
three_edges-IsGraph = (add_edge-IsGraph 1 3 two_edges two_edges-IsGraph).0

topological_sort-IsOrdered_example :
    IsOrdered three_edges [] (topological_sort three_edges)
    × IsUnique (topological_sort three_edges)
    × ((n : ℕ)
        → contains n (topological_sort three_edges) ≡ true
        → contains n (vertices three_edges) ≡ true)
topological_sort-IsOrdered_example = topological_sort-IsOrdered three_edges three_edges-IsGraph

abbrev rank : ℕ → ℕ
rank n = n

three_edges-IsAcyclic : IsAcyclic three_edges rank
unfolding contains neighbours
three_edges-IsAcyclic p n m = ground (
  arith,
  m,
  (add_edge-IsGraph 1 3 two_edges two_edges-IsGraph).2 p n,
  (add_edge-IsGraph 2 3 one_edge one_edge-IsGraph).2 p n,
  (add_edge-IsGraph 1 2 [] empty-IsGraph).2 p n,
)

topological_sort-all_example :
    contains 3 (topological_sort three_edges) ≡ contains 3 (vertices three_edges)
topological_sort-all_example =
    topological_sort-all three_edges three_edges-IsGraph rank three_edges-IsAcyclic 3
