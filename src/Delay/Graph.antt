-- ===== src/Delay/Graph.antt =====
-- `Graph` (queue_job/delay.py): vertices and the edges between them. A vertex is a number. A
-- dictionary is the list of its entries, and a set is walked in the order of its list.
pub mod Pending
pub mod Build
pub mod Relax
pub mod Loop
pub mod Sorted
use others_addons.Base.{
  ℕ, zero, suc, ◌-◌, Bool, List, [], ◌∷◌, ◌++◌, map, if◌then◌else◌, ◌==◌, contains,
  add as add_to_set, difference, length,
}

abbrev pub Graph : Type 0
Graph = List (ℕ × List ℕ)

abbrev pub vertices : Graph → List ℕ
vertices [] = []
vertices ((v, ns) ∷ g) = v ∷ vertices g

-- `self._graph.setdefault(vertex, set())`
unfoldable pub add_vertex : ℕ → Graph → Graph
add_vertex v g = if contains v (vertices g) then g else g ++ (v, []) ∷ []

-- `self._graph[parent].add(child)`
unfoldable pub add_neighbour : ℕ → ℕ → Graph → Graph
add_neighbour parent child [] = []
add_neighbour parent child ((v, ns) ∷ g) =
    let rest = add_neighbour parent child g in
    if v == parent then (v, add_to_set child ns) ∷ g else (v, ns) ∷ rest

unfoldable pub add_edge : ℕ → ℕ → Graph → Graph
unfolding add_vertex add_neighbour
add_edge parent child g = add_neighbour parent child (add_vertex parent (add_vertex child g))

-- `self._graph[vertex]`; every vertex that the code looks up is a key.
unfoldable pub neighbours : ℕ → Graph → List ℕ
neighbours v [] = []
neighbours v ((u, ns) ∷ g) = let rest = neighbours v g in if u == v then ns else rest

abbrev pub edges : Graph → List (ℕ × ℕ)
edges [] = []
edges ((v, ns) ∷ g) = map (λ n. (v, n)) ns ++ edges g

-- The union of the values of the dictionary.
abbrev pub dependency_vertices : Graph → List ℕ
dependency_vertices [] = []
dependency_vertices ((v, ns) ∷ g) = ns ++ dependency_vertices g

unfoldable pub root_vertices : Graph → List ℕ
root_vertices g = difference (vertices g) (dependency_vertices g)

-- The loop that counts `depends_per_node`.
unfoldable pub depends_per_node : List (ℕ × ℕ) → ℕ → ℕ
depends_per_node [] n = 0
depends_per_node ((head, tail) ∷ links) n =
    let rest = depends_per_node links n in if tail == n then suc rest else rest

abbrev pub set_count : ℕ → ℕ → (ℕ → ℕ) → ℕ → ℕ
set_count n c counts k = if k == n then c else counts k

-- The `for` loop over the neighbours of a vertex. A count that would go below 0 is not 0
-- in Python either, and stays so.
unfoldable pub relax : List ℕ → List ℕ → (ℕ → ℕ) → List ℕ × (ℕ → ℕ)
relax [] queue counts = (queue, counts)
relax (n ∷ ns) queue counts =
    relax ns (if counts n == 1 then queue ++ n ∷ [] else queue) (set_count n (counts n - 1) counts)

-- `while queue`. The fuel is the number of the vertices, as no vertex comes twice.
unfoldable pub sort_loop : Graph → ℕ → List ℕ → (ℕ → ℕ) → List ℕ
unfolding relax neighbours
sort_loop g zero queue counts = []
sort_loop g (suc fuel) [] counts = []
sort_loop g (suc fuel) (v ∷ queue) counts =
    let (queue', counts') = relax (neighbours v g) queue counts in
    v ∷ sort_loop g fuel queue' counts'

unfoldable pub topological_sort : Graph → List ℕ
unfolding sort_loop root_vertices depends_per_node
topological_sort g = sort_loop g (length g) (root_vertices g) (depends_per_node (edges g))
