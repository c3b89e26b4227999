-- ===== src/Delay/Delayables.antt =====
-- `Delayable`, `DelayableChain` and `DelayableGroup` and the graph that connects theirs,
-- `DelayableGraph` (queue_job/delay.py). An object is a number, the one under which it was created, and
-- the graphs of the objects are a table: they are shared and change. A graph has the number of its
-- object.
pub mod Edges
pub mod Connected
pub mod Whole
use others_addons.Base.{
  ℕ, zero, suc, ◌+◌, Bool, true, false, ◌||◌, List, [], ◌∷◌, ◌++◌, Option, none, some,
  if◌then◌else◌, ◌==◌, contains, add as add_to_set, length,
}
use others_addons.Delay.Graph.{Graph, vertices, add_vertex, add_edge}

-- What an object is made of: a chain has its first and its last part, a group its parts.
mutual
  pub data Delayable : Type 0 where
    unit : ℕ → Delayable
    chain : ℕ → Delayable → Delayable → Delayable
    group : ℕ → Parts → Delayable

  pub data Parts : Type 0 where
    no_parts : Parts
    part : Delayable → Parts → Parts

abbrev pub id_of : Delayable → ℕ
id_of (unit i) = i
id_of (chain i first last) = i
id_of (group i parts) = i

abbrev pub ids_of : Parts → List ℕ
ids_of no_parts = []
ids_of (part d parts) = id_of d ∷ ids_of parts

-- `_head` and `_tail`. Those of a chain are the tail of its first part and the head of its last one.
unfoldable mutual
  pub head : Delayable → List ℕ
  head (unit i) = i ∷ []
  head (chain i first last) = tail first
  head (group i parts) = heads parts

  pub tail : Delayable → List ℕ
  tail (unit i) = i ∷ []
  tail (chain i first last) = head last
  tail (group i parts) = tails parts

  pub heads : Parts → List ℕ
  heads no_parts = []
  heads (part d parts) = head d ++ heads parts

  pub tails : Parts → List ℕ
  tails no_parts = []
  tails (part d parts) = tail d ++ tails parts

-- The objects by their numbers, and their graphs.
pub record World : Type 0 where
  pub object : ℕ → Delayable
  pub graph : ℕ → Graph

abbrev pub set_graph : ℕ → Graph → World → World
set_graph i g world = record world { graph = λ j. if j == i then g else world.graph j }

abbrev pub set_object : Delayable → Graph → World → World
set_object d g world = record {
  object = λ j. if j == id_of d then d else world.object j;
  graph = λ j. if j == id_of d then g else world.graph j;
}

-- `Delayable.__init__`
unfoldable pub new_delayable : ℕ → World → World
new_delayable i world = set_object (unit i) (add_vertex i []) world

-- The edges between the parts of a chain, and its last part.
unfoldable pub chain_edges : Delayable → List Delayable → Graph → Graph × Delayable
chain_edges first [] g = (g, first)
chain_edges first (d ∷ rest) g = chain_edges d rest (add_edge (id_of first) (id_of d) g)

-- `DelayableChain.__init__` of at least one delayable.
unfoldable pub new_chain : ℕ → Delayable → List Delayable → World → World
unfolding chain_edges
new_chain i first rest world =
    let (g, last) = chain_edges first rest (add_vertex (id_of first) []) in
    set_object (chain i first last) g world

abbrev pub parts_of : List Delayable → Parts
parts_of [] = no_parts
parts_of (d ∷ rest) = part d (parts_of rest)

abbrev pub add_vertices : List ℕ → Graph → Graph
add_vertices [] g = g
add_vertices (v ∷ vs) g = add_vertices vs (add_vertex v g)

-- `DelayableGroup.__init__`
unfoldable pub new_group : ℕ → List Delayable → World → World
new_group i delayables world =
    let parts = parts_of delayables in
    set_object (group i parts) (add_vertices (ids_of parts) []) world

abbrev pub add_edges : ℕ → List ℕ → Graph → Graph
add_edges parent [] g = g
add_edges parent (child ∷ children) g = add_edges parent children (add_edge parent child g)

abbrev pub edges_from_each : Parts → List ℕ → Graph → Graph
edges_from_each no_parts children g = g
edges_from_each (part d parts) children g =
    edges_from_each parts children (add_edges (id_of d) children g)

-- `on_done` of the three classes.
unfoldable pub on_done : Delayable → List ℕ → World → World
on_done (unit i) children world = set_graph i (add_edges i children (world.graph i)) world
on_done (chain i first last) children world =
    set_graph i (add_edges (id_of last) children (world.graph i)) world
on_done (group i parts) children world =
    set_graph i (edges_from_each parts children (world.graph i)) world

-- The heads of the neighbours of a vertex.
unfoldable pub heads_of : World → List ℕ → List ℕ
heads_of world [] = []
heads_of world (n ∷ ns) = head (world.object n) ++ heads_of world ns

abbrev pub update_set : List ℕ → List ℕ → List ℕ
update_set [] s = s
update_set (x ∷ xs) s = update_set xs (add_to_set x s)

-- `self._graph.setdefault(tail, set()).update(heads)`
unfoldable pub update_neighbours : ℕ → List ℕ → Graph → Graph
update_neighbours t hs [] = (t, update_set hs []) ∷ []
update_neighbours t hs ((v, ns) ∷ g) =
    let rest = update_neighbours t hs g in
    if v == t then (v, update_set hs ns) ∷ g else (v, ns) ∷ rest

unfoldable pub update_each : List ℕ → List ℕ → Graph → Graph
unfolding update_neighbours
update_each [] hs g = g
update_each (t ∷ ts) hs g = update_each ts hs (update_neighbours t hs g)

-- `_merge_graph`
unfoldable pub merge_graph : World → Graph → Graph → Graph
unfolding update_each heads_of
merge_graph world [] whole = whole
merge_graph world ((v, ns) ∷ g) whole =
    merge_graph world g (update_each (tail (world.object v)) (heads_of world ns) whole)

unfoldable pub merge_graphs : World → List ℕ → Graph → Graph
unfolding merge_graph
merge_graphs world [] whole = whole
merge_graphs world (v ∷ vs) whole = merge_graphs world vs (merge_graph world (world.graph v) whole)

-- `while visit_stack`: the graphs to visit, those that are seen, and the whole graph.
unfoldable pub visit : World → ℕ → List ℕ → List ℕ → Graph → Graph
unfolding merge_graphs
visit world zero stack seen whole = whole
visit world (suc fuel) [] seen whole = whole
visit world (suc fuel) (current ∷ stack) seen whole =
    let skipped = visit world fuel stack seen whole in
    let vs = vertices (world.graph current) in
    let visited = visit world fuel (stack ++ vs) (current ∷ seen) (merge_graphs world vs whole) in
    if contains current seen then skipped else visited

-- One round for the first graph and for each vertex of each graph: a graph is only visited once.
abbrev pub rounds : World → List ℕ → ℕ
rounds world [] = 1
rounds world (i ∷ objects) = length (world.graph i) + rounds world objects

-- `_connect_graphs` of the graph of an object, with the numbers of all objects.
unfoldable pub connect_graphs : World → List ℕ → ℕ → Graph
unfolding visit
connect_graphs world objects i =
    visit world (suc (rounds world objects)) (i ∷ []) [] (merge_graph world (world.graph i) [])
