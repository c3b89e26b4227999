-- ===== src/Delay/Delayables/Edges.antt =====
-- The edges that `_merge_graph` makes (queue_job/delay.py).
use others_addons.Base.{
  ℕ, ◌≡◌, refl, inl, inr, Bool, false, ◌&&◌, ◌||◌, List, [], ◌∷◌, ◌==◌, ==_iff, contains,
  contains-add, add as add_to_set, arith, Bool-cases,
}
use others_addons.Delay.Graph.{Graph, neighbours}
use others_addons.Delay.Delayables.{
  World, tail, heads_of, update_set, update_neighbours, update_each, merge_graph, merge_graphs,
}

-- Whether an entry of a graph joins a tail of its vertex to a head of one of the neighbours.
unfoldable pub links : World → Graph → ℕ → ℕ → Bool
links world [] t h = false
links world ((v, ns) ∷ g) t h =
    (contains t (tail (world.object v)) && contains h (heads_of world ns)) || links world g t h

contains-update_set :
    (x : ℕ) (xs s : List ℕ) → contains x (update_set xs s) ≡ (contains x xs || contains x s)
unfolding contains
contains-update_set x [] s = refl
contains-update_set x (y ∷ xs) s =
    ground (arith, contains-update_set x xs (add_to_set y s), contains-add x y s)

-- An edge of a graph after one of the updates.
edge-update_neighbours :
    (u h t : ℕ) (hs : List ℕ) (g : Graph)
    → contains h (neighbours u (update_neighbours t hs g))
      ≡ ((u == t && contains h hs) || contains h (neighbours u g))
unfolding update_neighbours neighbours contains
edge-update_neighbours u h t hs [] = ground (arith, contains-update_set h hs [])
edge-update_neighbours u h t hs ((v, ns) ∷ g) = elim (Bool-cases (v == t)) [
  | inl same ↦ ground (arith, same, ==_iff v t, ==_iff v u, ==_iff u t, contains-update_set h hs ns)
  | inr other ↦
      ground (arith, other, ==_iff v t, ==_iff v u, ==_iff u t, edge-update_neighbours u h t hs g)
]

edge-update_each :
    (u h : ℕ) (ts hs : List ℕ) (g : Graph)
    → contains h (neighbours u (update_each ts hs g))
      ≡ ((contains u ts && contains h hs) || contains h (neighbours u g))
unfolding update_each contains
edge-update_each u h [] hs g = refl
edge-update_each u h (t ∷ ts) hs g = ground (
  arith,
  edge-update_each u h ts hs (update_neighbours t hs g),
  edge-update_neighbours u h t hs g,
)

pub edge-merge_graph :
    (world : World) (t h : ℕ) (g whole : Graph)
    → contains h (neighbours t (merge_graph world g whole))
      ≡ (links world g t h || contains h (neighbours t whole))
unfolding merge_graph links
edge-merge_graph world t h [] whole = refl
edge-merge_graph world t h ((v, ns) ∷ g) whole = ground (
  arith,
  edge-merge_graph world t h g (update_each (tail (world.object v)) (heads_of world ns) whole),
  edge-update_each t h (tail (world.object v)) (heads_of world ns) whole,
)

-- Whether one of the graphs has the link.
unfoldable pub any_links : World → List ℕ → ℕ → ℕ → Bool
any_links world [] t h = false
any_links world (v ∷ vs) t h = links world (world.graph v) t h || any_links world vs t h

pub edge-merge_graphs :
    (world : World) (t h : ℕ) (vs : List ℕ) (whole : Graph)
    → contains h (neighbours t (merge_graphs world vs whole))
      ≡ (any_links world vs t h || contains h (neighbours t whole))
unfolding merge_graphs any_links
edge-merge_graphs world t h [] whole = refl
edge-merge_graphs world t h (v ∷ vs) whole = ground (
  arith,
  edge-merge_graphs world t h vs (merge_graph world (world.graph v) whole),
  edge-merge_graph world t h (world.graph v) whole,
)
