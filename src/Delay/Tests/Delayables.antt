-- ===== src/Delay/Tests/Delayables.antt =====
-- Graphs of delayables, and a chain in a chain (queue_job/delay.py).
use others_addons.Base.{
  ℕ, ◌≡◌, refl, ap, ◌∙◌, inl, inr, ◌↔◌, Bool, true, false, ◌&&◌, List, [], ◌∷◌, none, some, ◌==◌,
  ==_iff, contains, arith, Bool-cases, IsSubset, add as add_to_set,
}
use others_addons.Delay.Graph.{Graph, vertices, neighbours, add_vertex, add_edge}
use others_addons.Delay.Delayables.{
  unit, World, new_delayable, new_chain, on_done, connect_graphs, tail,
}
use others_addons.Delay.Delayables.Connected.{IsClosed}
use others_addons.Delay.Delayables.Whole.{Linked, connect_graphs-Linked}
use others_addons.Delay.Delaying.{Setting, Plan, delay_graph, shared_uuid, graph_uuids}
use others_addons.Delay.Delaying.Outcome.{Outcome}

abbrev is_subset : List ℕ → List ℕ → Bool
is_subset [] t = true
is_subset (x ∷ s) t = contains x t && is_subset s t

is_subset_lem : (s t : List ℕ) → is_subset s t ≡ true → IsSubset s t
unfolding contains
is_subset_lem [] t h x m = absurd (ground (arith, m))
is_subset_lem (y ∷ s) t h x m = elim (Bool-cases (x == y)) [
  | inl same ↦ ap (λ k. contains k t) ((==_iff x y).0 same) ∙ ground (arith, h)
  | inr other ↦ is_subset_lem s t (ground (arith, h)) x (ground (arith, m, other))
]

abbrev all_closed : World → List ℕ → List ℕ → Bool
all_closed world objects [] = true
all_closed world objects (j ∷ js) =
    is_subset (vertices (world.graph j)) objects && all_closed world objects js

all_closed_lem :
    (world : World) (objects js : List ℕ)
    → all_closed world objects js ≡ true
    → (j : ℕ) → contains j js ≡ true
    → is_subset (vertices (world.graph j)) objects ≡ true
unfolding contains
all_closed_lem world objects [] h j m = absurd (ground (arith, m))
all_closed_lem world objects (k ∷ js) h j m = elim (Bool-cases (j == k)) [
  | inl same ↦
      ap (λ i. is_subset (vertices (world.graph i)) objects) ((==_iff j k).0 same)
      ∙ ground (arith, h)
  | inr other ↦ all_closed_lem world objects js (ground (arith, h)) j (ground (arith, m, other))
]

-- A chain of 1 and 2, a chain of that and 3, and 4, on which the whole chain depends.
abbrev nothing : World
nothing = record { object = λ i. unit i; graph = λ i. [] }

abbrev units : World
units = new_delayable 4 (new_delayable 3 (new_delayable 2 (new_delayable 1 nothing)))

abbrev inner : World
inner = new_chain 5 (unit 1) (unit 2 ∷ []) units

abbrev nested : World
nested = on_done (unit 4) (6 ∷ []) (new_chain 6 (inner.object 5) (unit 3 ∷ []) inner)

abbrev objects : List ℕ
objects = 1 ∷ 2 ∷ 3 ∷ 4 ∷ 5 ∷ 6 ∷ []

nested-IsClosed : IsClosed nested objects
unfolding contains on_done new_chain new_delayable add_vertex add_edge add_to_set
nested-IsClosed = record {
  unique = (refl, (refl, (refl, (refl, (refl, (refl, tt))))));
  closed = λ j m.
      is_subset_lem (vertices (nested.graph j)) objects
        (all_closed_lem nested objects objects refl j m);
}

-- The last job of the inner chain waits for 4, but its first one does not.
nested_chain :
    (neighbours 4 (connect_graphs nested objects 4) ≡ 2 ∷ [])
    × (neighbours 1 (connect_graphs nested objects 4) ≡ 2 ∷ [])
    × (neighbours 2 (connect_graphs nested objects 4) ≡ 3 ∷ [])
unfolding connect_graphs on_done new_chain new_delayable neighbours contains add_vertex add_edge
    tail add_to_set
nested_chain = (refl, refl, refl)

connect_graphs-Linked_example :
    (contains 3 (neighbours 2 (connect_graphs nested objects 4)) ≡ true) ↔ Linked nested 4 2 3
unfolding contains
connect_graphs-Linked_example = connect_graphs-Linked nested objects nested-IsClosed 4 refl 2 3

-- Both vertices have keys with existing jobs: only the first gets its job.
abbrev setting : Setting
setting = record {
  graph_uuid_of = λ v. none;
  has_key = λ v. true;
  existing = λ v. some v;
  directly = false;
  new_uuid = 9;
}

abbrev two_jobs : Graph
two_jobs = (1, 2 ∷ []) ∷ (2, []) ∷ []

abbrev found_plan : Plan
found_plan = record {
  executed = [];
  stored = [];
  depends = (1, 2) ∷ [];
  replaced = (1, 1) ∷ [];
  uuids = some 9 ∷ some 9 ∷ [];
}

finds_jobs : delay_graph setting two_jobs ≡ some found_plan
unfolding delay_graph shared_uuid graph_uuids
finds_jobs = refl
