-- ===== src/Delay/Delayables/Connected.antt =====
-- The graph that `_connect_graphs` builds (queue_job/delay.py).
use others_addons.Base.{
  ℕ, zero, suc, ◌+◌, ◌<◌, ◌≡◌, refl, ap, ◌∙◌, sym, inl, inr, true, false, ◌||◌, List, [], ◌∷◌, ◌++◌,
  ◌==◌, ==_iff, if◌then◌else◌, if_true, if_false, subst, contains, contains-append, arith,
  Bool-cases, IsUnique, IsSubset, length, length-append,
}
use others_addons.Delay.Graph.{Graph, vertices, neighbours}
use others_addons.Delay.Delayables.{World, merge_graphs, visit, rounds}
use others_addons.Delay.Delayables.Edges.{links, any_links, edge-merge_graphs}

-- The graphs that can be reached from one, by the vertices that have the graphs.
pub data Reached (world : World) (i : ℕ) : ℕ → Type 0 where
  here : Reached world i i
  through :
      (j v : ℕ)
      → Reached world i j
      → contains v (vertices (world.graph j)) ≡ true
      → Reached world i v

-- The numbers of the objects: no graph has a vertex that is none of them.
pub record IsClosed (world : World) (objects : List ℕ) : Type 0 where
  pub unique : IsUnique objects
  pub closed : (j : ℕ) → contains j objects ≡ true → IsSubset (vertices (world.graph j)) objects

-- The vertices of the graphs that are not seen yet.
abbrev pub weight : World → List ℕ → List ℕ → ℕ
weight world seen [] = 0
weight world seen (i ∷ objects) =
    (if contains i seen then 0 else length (world.graph i)) + weight world seen objects

length-vertices : (g : Graph) → length (vertices g) ≡ length g
length-vertices [] = refl
length-vertices ((v, ns) ∷ g) = ap suc (length-vertices g)

weight-other :
    (world : World) (seen : List ℕ) (j : ℕ) (objects : List ℕ)
    → contains j objects ≡ false
    → weight world (j ∷ seen) objects ≡ weight world seen objects
unfolding contains
weight-other world seen j [] out = refl
weight-other world seen j (i ∷ objects) out =
    ground (arith, weight-other world seen j objects, out, ==_iff i j, ==_iff j i)

weight-seen :
    (world : World) (seen : List ℕ) (j : ℕ) (objects : List ℕ)
    → IsUnique objects
    → contains j objects ≡ true
    → contains j seen ≡ false
    → weight world (j ∷ seen) objects + length (world.graph j) ≡ weight world seen objects
unfolding contains
weight-seen world seen j [] unique among new = absurd (ground (arith, among))
weight-seen world seen j (i ∷ objects) unique among new = elim (Bool-cases (j == i)) [
  | inl same ↦
      let e : j ≡ i = (==_iff j i).0 same in
      let fresh : contains j objects ≡ false = ap (λ k. contains k objects) e ∙ unique.0 in
      let unseen : contains i seen ≡ false = ap (λ k. contains k seen) (sym e) ∙ new in
      ground (
        arith,
        ==_iff i j,
        ==_iff j i,
        weight-other world seen j objects fresh,
        unseen,
        ap (λ k. length (world.graph k)) e,
      )
  | inr other ↦ ground (
    arith,
    ==_iff i j,
    ==_iff j i,
    other,
    weight-seen world seen j objects unique.1 (ground (arith, among, other)) new,
  )
]

pub weight-rounds :
    (world : World) (objects : List ℕ) → suc (weight world [] objects) ≡ rounds world objects
unfolding contains
weight-rounds world [] = refl
weight-rounds world (i ∷ objects) = ground (arith, weight-rounds world objects)

-- What a graph shows of a set of visited graphs: they are closed under their vertices, whose links
-- are edges.
pub record IsVisited (world : World) (result : Graph) (done : List ℕ) : Type 0 where
  pub inside :
      (j v : ℕ)
      → contains j done ≡ true
      → contains v (vertices (world.graph j)) ≡ true
      → contains v done ≡ true
  pub linked :
      (j v : ℕ)
      → contains j done ≡ true
      → contains v (vertices (world.graph j)) ≡ true
      → (t h : ℕ) → links world (world.graph v) t h ≡ true
      → contains h (neighbours t result) ≡ true

-- The links of one of some graphs.
pub any_links-one :
    (world : World) (v : ℕ) (vs : List ℕ) (t h : ℕ)
    → contains v vs ≡ true
    → links world (world.graph v) t h ≡ true
    → any_links world vs t h ≡ true
unfolding any_links contains
any_links-one world v [] t h among linked = absurd (ground (arith, among))
any_links-one world v (w ∷ vs) t h among linked = elim (Bool-cases (v == w)) [
  | inl same ↦
      let e : links world (world.graph w) t h ≡ true =
        ap (λ k. links world (world.graph k) t h) (sym ((==_iff v w).0 same)) ∙ linked in
      ground (arith, e)
  | inr other ↦ ground (arith, any_links-one world v vs t h (ground (arith, among, other)) linked)
]

module _ (world : World) (objects : List ℕ) (closed : IsClosed world objects) where
  -- The state of the loop: what is seen is closed up to what is on the stack.
  pub record IsWalk (stack seen : List ℕ) (whole : Graph) : Type 0 where
    pub known : IsSubset stack objects
    pub next :
        (j v : ℕ)
        → contains j seen ≡ true
        → contains v (vertices (world.graph j)) ≡ true
        → (contains v seen || contains v stack) ≡ true
    pub linked :
        (j v : ℕ)
        → contains j seen ≡ true
        → contains v (vertices (world.graph j)) ≡ true
        → (t h : ℕ) → links world (world.graph v) t h ≡ true
        → contains h (neighbours t whole) ≡ true

  -- What the loop leaves.
  abbrev Walked : List ℕ → List ℕ → Graph → Graph → Type 0
  Walked stack seen whole result =
      (done : List ℕ) × (IsVisited world result done)
      × ((x : ℕ) → (contains x seen || contains x stack) ≡ true → contains x done ≡ true)
      × ((t h : ℕ)
          → contains h (neighbours t whole) ≡ true
          → contains h (neighbours t result) ≡ true)

  -- The next state, after a graph that is not seen yet.
  visited-IsWalk :
      (current : ℕ) (stack seen : List ℕ) (whole : Graph)
      → IsWalk (current ∷ stack) seen whole
      → IsWalk
          (stack ++ vertices (world.graph current))
          (current ∷ seen)
          (merge_graphs world (vertices (world.graph current)) whole)
  unfolding contains
  visited-IsWalk current stack seen whole w =
      let vs = vertices (world.graph current) in
      let among : contains current objects ≡ true = w.known current (ground arith) in
      record {
        known = λ x m.
            ground (arith, contains-append x stack vs, m, w.known x, closed.closed current among x);
        next = λ j v seen_j m. elim (Bool-cases (j == current)) [
          | inl same ↦
              let m2 : contains v vs ≡ true =
                ap (λ k. contains v (vertices (world.graph k))) (sym ((==_iff j current).0 same))
                ∙ m in
              ground (arith, contains-append v stack vs, m2)
          | inr other ↦
              ground
                (arith, contains-append v stack vs, w.next j v (ground (arith, seen_j, other)) m)
        ];
        linked = λ j v seen_j m t h l. elim (Bool-cases (j == current)) [
          | inl same ↦
              let m2 : contains v vs ≡ true =
                ap (λ k. contains v (vertices (world.graph k))) (sym ((==_iff j current).0 same))
                ∙ m in
              ground
                (arith, edge-merge_graphs world t h vs whole, any_links-one world v vs t h m2 l)
          | inr other ↦ ground (
            arith,
            edge-merge_graphs world t h vs whole,
            w.linked j v (ground (arith, seen_j, other)) m t h l,
          )
        ];
      }

  pub visit-Walked :
      (fuel : ℕ) (stack seen : List ℕ) (whole : Graph)
      → length stack + weight world seen objects < fuel
      → IsWalk stack seen whole
      → Walked stack seen whole (visit world fuel stack seen whole)
  unfolding visit contains
  visit-Walked zero stack seen whole enough w = absurd (ground (arith, enough))
  visit-Walked (suc fuel) [] seen whole enough w = (
    seen,
    record { inside = λ j v m n. ground (arith, w.next j v m n); linked = w.linked },
    λ x m. ground (arith, m),
    λ t h m. m,
  )
  visit-Walked (suc fuel) (current ∷ stack) seen whole enough w =
      let vs = vertices (world.graph current) in
      let skipped = visit world fuel stack seen whole in
      let visited = visit world fuel (stack ++ vs) (current ∷ seen) (merge_graphs world vs whole) in
      elim (Bool-cases (contains current seen)) [
        | inl old ↦
            let is_seen : (v : ℕ) → (v == current) ≡ true → contains v seen ≡ true =
              λ v e. ap (λ k. contains k seen) ((==_iff v current).0 e) ∙ old in
            let after : IsWalk stack seen whole = record {
              known = λ x m. w.known x (ground (arith, m));
              next = λ j v m n. elim (Bool-cases (v == current)) [
                | inl same ↦ ground (arith, is_seen v same)
                | inr other ↦ ground (arith, w.next j v m n, other)
              ];
              linked = w.linked;
            } in
            let (done, result, covers, keeps) =
              visit-Walked fuel stack seen whole (ground (arith, enough)) after in
            subst (Walked (current ∷ stack) seen whole)
              (sym (if_true (contains current seen) skipped visited old))
              (
                done,
                result,
                λ x m. elim (Bool-cases (x == current)) [
                  | inl same ↦ covers x (ground (arith, is_seen x same))
                  | inr other ↦ covers x (ground (arith, m, other))
                ],
                keeps,
              )
        | inr new ↦
            let among : contains current objects ≡ true = w.known current (ground arith) in
            let lighter = weight-seen world seen current objects closed.unique among new in
            let (done, result, covers, keeps) =
              visit-Walked fuel (stack ++ vs) (current ∷ seen) (merge_graphs world vs whole)
                (ground (
                  arith,
                  enough,
                  lighter,
                  length-append stack vs,
                  length-vertices (world.graph current),
                ))
                (visited-IsWalk current stack seen whole w) in
            subst (Walked (current ∷ stack) seen whole)
              (sym (if_false (contains current seen) skipped visited new))
              (
                done,
                result,
                λ x m. covers x (ground (arith, m, contains-append x stack vs)),
                λ t h m. keeps t h (ground (arith, m, edge-merge_graphs world t h vs whole)),
              )
      ]
