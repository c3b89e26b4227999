-- ===== src/Delay/Delaying.antt =====
-- `DelayableGraph.delay` (queue_job/delay.py): what happens to the jobs of the vertices of the whole
-- graph. A job has the number of its vertex.
pub mod Uuids
pub mod Outcome
use others_addons.Base.{
  ℕ, Bool, true, false, not, ◌&&◌, ◌||◌, List, [], ◌∷◌, ◌++◌, map, Option, none, some, ◌>>=◌,
  if◌then◌else◌, ◌==◌, contains, add as add_to_set,
}
use others_addons.Delay.Graph.{Graph, vertices, edges, topological_sort}
use others_addons.Delay.Delayables.{World, connect_graphs}

-- The `graph_uuid`s that are set, without repetitions.
unfoldable pub graph_uuids : List (Option ℕ) → List ℕ
graph_uuids [] = []
graph_uuids (none ∷ jobs) = graph_uuids jobs
graph_uuids (some u ∷ jobs) = add_to_set u (graph_uuids jobs)

-- The `graph_uuid` that the jobs share, by those they have: none for the `ValueError`.
unfoldable pub shared_uuid : ℕ → List ℕ → Option ℕ
shared_uuid fresh [] = some fresh
shared_uuid fresh (u ∷ []) = some u
shared_uuid fresh (u ∷ v ∷ uuids) = none

-- `_ensure_same_graph_uuid` on the `graph_uuid`s of the jobs, with the one of `uuid4`.
unfoldable pub ensure_same_graph_uuid : ℕ → List (Option ℕ) → Option (List (Option ℕ))
ensure_same_graph_uuid fresh [] = none
ensure_same_graph_uuid fresh (none ∷ []) = some (none ∷ [])
ensure_same_graph_uuid fresh (some u ∷ []) = none
ensure_same_graph_uuid fresh (job ∷ other ∷ jobs) = do
  u ← shared_uuid fresh (graph_uuids (job ∷ other ∷ jobs))
  some (map (λ j. some u) (job ∷ other ∷ jobs))

-- What the delay needs of the vertices and of Odoo: the `graph_uuid`s of the jobs, whether a vertex has
-- an identity key, the stored job with the same one, and whether the jobs run directly.
pub record Setting : Type 0 where
  pub graph_uuid_of : ℕ → Option ℕ
  pub has_key : ℕ → Bool
  pub existing : ℕ → Option ℕ
  pub directly : Bool
  pub new_uuid : ℕ

-- What is done: the vertices whose jobs run directly, those whose jobs are stored, the dependencies of
-- the jobs, the vertices that get an existing job instead, and the `graph_uuid`s.
pub record Plan : Type 0 where
  pub executed : List ℕ
  pub stored : List ℕ
  pub depends : List (ℕ × ℕ)
  pub replaced : List (ℕ × ℕ)
  pub uuids : List (Option ℕ)

-- `add_depends` raises a `ValueError` for a job that depends on itself.
abbrev pub has_loop : List (ℕ × ℕ) → Bool
has_loop [] = false
has_loop ((vertex, neighbour) ∷ links) = vertex == neighbour || has_loop links

-- One round of the loop that builds `existing_mapping`, none for its `break`.
abbrev pub add_existing : ℕ → List (ℕ × ℕ) → Option ℕ → Option (List (ℕ × ℕ))
add_existing v mapping none = none
add_existing v mapping (some job) = some (mapping ++ (v, job) ∷ [])

abbrev pub map_vertex : Setting → ℕ → List (ℕ × ℕ) → Option (List (ℕ × ℕ))
map_vertex setting v mapping =
    if setting.has_key v then add_existing v mapping (setting.existing v) else some mapping

unfoldable pub existing_mapping : Setting → List ℕ → List (ℕ × ℕ) → List (ℕ × ℕ)
existing_mapping setting [] mapping = mapping
existing_mapping setting (v ∷ vs) mapping = elim (map_vertex setting v mapping) [
  | none ↦ []
  | some longer ↦ existing_mapping setting vs longer
]

-- `for vertex, existing in existing_mapping.items()`, which returns in its first round.
abbrev pub replace_first : List (ℕ × ℕ) → List (ℕ × ℕ)
replace_first [] = []
replace_first (entry ∷ mapping) = entry ∷ []

abbrev pub is_unmapped : List (ℕ × ℕ) → Bool
is_unmapped [] = true
is_unmapped (entry ∷ mapping) = false

-- `delay` behind `_connect_graphs`.
unfoldable pub delay_graph : Setting → Graph → Option Plan
unfolding existing_mapping ensure_same_graph_uuid
delay_graph setting graph = do
  uuids ← ensure_same_graph_uuid setting.new_uuid (map setting.graph_uuid_of (vertices graph))
  let direct : Plan = record {
    executed = topological_sort graph;
    stored = [];
    depends = [];
    replaced = [];
    uuids = uuids;
  }
  let mapping = existing_mapping setting (vertices graph) []
  let delayed : Plan = record {
    executed = [];
    stored = if is_unmapped mapping then vertices graph else [];
    depends = edges graph;
    replaced = replace_first mapping;
    uuids = uuids;
  }
  if setting.directly then some direct else if has_loop (edges graph) then none else some delayed

unfoldable pub delay : Setting → World → List ℕ → ℕ → Option Plan
unfolding delay_graph
delay setting world objects i = delay_graph setting (connect_graphs world objects i)
