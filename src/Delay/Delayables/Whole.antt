-- ===== src/Delay/Delayables/Whole.antt =====
-- Which edges the graph of `_connect_graphs` has (queue_job/delay.py).
use others_addons.Base.{
  ℕ, zero, suc, ◌≡◌, ap, subst, ◌∙◌, sym, ◌⊎◌, inl, inr, ◌↔◌, true, List, [], ◌∷◌, ◌++◌, ==_iff,
  if_true, if_false, contains, contains-append, arith, Bool-cases,
}
use others_addons.Delay.Graph.{Graph, vertices, neighbours}
use others_addons.Delay.Delayables.{World, merge_graph, merge_graphs, visit, rounds, connect_graphs}
use others_addons.Delay.Delayables.Edges.{links, any_links, edge-merge_graph, edge-merge_graphs}
use others_addons.Delay.Delayables.Connected.{
  Reached, here, through, IsClosed, IsVisited, IsWalk, visit-Walked, weight-rounds,
}

abbrev pub Linked : World → ℕ → ℕ → ℕ → Type 0
Linked world i t h = (j : ℕ) × (Reached world i j) × (links world (world.graph j) t h ≡ true)

any_links-some :
    (world : World) (i : ℕ) (vs : List ℕ) (t h : ℕ)
    → ((v : ℕ) → contains v vs ≡ true → Reached world i v)
    → any_links world vs t h ≡ true
    → Linked world i t h
unfolding any_links contains
any_links-some world i [] t h reached l = absurd (ground (arith, l))
any_links-some world i (v ∷ vs) t h reached l =
    elim (Bool-cases (links world (world.graph v) t h)) [
      | inl linked ↦ (v, reached v (ground (arith, ==_iff v v)), linked)
      | inr other ↦
          any_links-some world i vs t h (λ w m. reached w (ground (arith, m)))
            (ground (arith, l, other))
    ]

-- An edge that the loop adds is a link of a graph that can be reached.
visit-Linked :
    (world : World) (i fuel : ℕ) (stack seen : List ℕ) (whole : Graph)
    → ((x : ℕ) → contains x stack ≡ true → Reached world i x)
    → (t h : ℕ) → contains h (neighbours t (visit world fuel stack seen whole)) ≡ true
    → (contains h (neighbours t whole) ≡ true) ⊎ Linked world i t h
unfolding visit contains
visit-Linked world i zero stack seen whole reached t h e = inl e
visit-Linked world i (suc fuel) [] seen whole reached t h e = inl e
visit-Linked world i (suc fuel) (current ∷ stack) seen whole reached t h e =
    let vs = vertices (world.graph current) in
    let skipped = visit world fuel stack seen whole in
    let visited = visit world fuel (stack ++ vs) (current ∷ seen) (merge_graphs world vs whole) in
    elim (Bool-cases (contains current seen)) [
      | inl old ↦
          visit-Linked world i fuel stack seen whole (λ x m. reached x (ground (arith, m))) t h
            (ap (λ g. contains h (neighbours t g))
                (sym (if_true (contains current seen) skipped visited old))
              ∙ e)
      | inr new ↦
          let below : (v : ℕ) → contains v vs ≡ true → Reached world i v =
            λ v m. through current v (reached current (ground (arith, ==_iff current current))) m in
          let more : (x : ℕ) → contains x (stack ++ vs) ≡ true → Reached world i x = λ x m.
            elim (Bool-cases (contains x vs)) [
              | inl among ↦ below x among
              | inr apart ↦ reached x (ground (arith, m, apart, contains-append x stack vs))
            ] in
          elim (visit-Linked world i fuel (stack ++ vs) (current ∷ seen)
            (merge_graphs world vs whole) more t h
            (ap (λ g. contains h (neighbours t g))
                (sym (if_false (contains current seen) skipped visited new))
              ∙ e)) [
                | inr linked ↦ inr linked
                | inl merged ↦ elim (Bool-cases (any_links world vs t h)) [
                  | inl some_link ↦ inr (any_links-some world i vs t h below some_link)
                  | inr no_link ↦
                      inl (ground (arith, merged, no_link, edge-merge_graphs world t h vs whole))
                ]
              ]
    ]

-- A graph that can be reached is visited, and its links are edges.
Reached-linked :
    (world : World) (i : ℕ) (result : Graph) (done : List ℕ)
    → IsVisited world result done
    → contains i done ≡ true
    → ((t h : ℕ) → links world (world.graph i) t h ≡ true → contains h (neighbours t result) ≡ true)
    → (j : ℕ) → Reached world i j
    → (contains j done ≡ true)
      × ((t h : ℕ)
          → links world (world.graph j) t h ≡ true
          → contains h (neighbours t result) ≡ true)
Reached-linked world i result done visited started first _ here = (started, first)
Reached-linked world i result done visited started first _ (through j v reached m) =
    let (j_done, j_linked) = Reached-linked world i result done visited started first j reached in
    (visited.inside j v j_done m, visited.linked j v j_done m)

-- `_connect_graphs` visits every graph that can be reached from that of an object, with the fuel it
-- is given: the whole graph has an edge from one delayable to another just when one of those graphs
-- joins them, by an edge whose vertex has the first among its tails and one of whose neighbours has
-- the second among its heads. The numbers of the objects are distinct, and no graph has a vertex
-- that is none of them.
pub connect_graphs-Linked :
    (world : World) (objects : List ℕ)
    → IsClosed world objects
    → (i : ℕ) → contains i objects ≡ true
    → (t h : ℕ)
    → (contains h (neighbours t (connect_graphs world objects i)) ≡ true) ↔ Linked world i t h
unfolding connect_graphs neighbours contains
connect_graphs-Linked world objects closed i among t h =
    let own = merge_graph world (world.graph i) [] in
    let start : IsWalk world objects closed (i ∷ []) [] own = record {
      known = λ x m. ap (λ k. contains k objects) ((==_iff x i).0 (ground (arith, m))) ∙ among;
      next = λ j v m n. absurd (ground (arith, m));
      linked = λ j v m n t h l. absurd (ground (arith, m));
    } in
    let (done, visited, covers, keeps) =
      visit-Walked world objects closed (suc (rounds world objects)) (i ∷ []) [] own
        (ground (arith, weight-rounds world objects)) start in
    let result = connect_graphs world objects i in
    (
      λ e.
          elim (visit-Linked world i (suc (rounds world objects)) (i ∷ []) [] own
            (λ x m. subst (Reached world i) (sym ((==_iff x i).0 (ground (arith, m)))) here) t h
            e) [
              | inl first ↦
                  (i, here, ground (arith, first, edge-merge_graph world t h (world.graph i) []))
              | inr linked ↦ linked
            ],
      λ (j, reached, l).
          (Reached-linked world i (visit world (suc (rounds world objects)) (i ∷ []) [] own) done
              visited (covers i (ground (arith, ==_iff i i)))
              (λ u k m.
                keeps u k (ground (arith, m, edge-merge_graph world u k (world.graph i) [])))
              j reached).1
            t h l,
    )
