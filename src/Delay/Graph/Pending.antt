-- ===== src/Delay/Graph/Pending.antt =====
-- How many parents of a vertex are still to come (queue_job/delay.py, `topological_sort`).
use others_addons.Base.{
  ℕ, suc, ◌+◌, ◌≡◌, refl, true, false, not, ◌&&◌, List, [], ◌∷◌, ◌++◌, map, if◌then◌else◌, ◌==◌,
  ==_iff, contains, contains-append, IsUnique, All, arith, Bool-cases, inl, inr,
}
use others_addons.Delay.Graph.{
  Graph, vertices, neighbours, edges, dependency_vertices, depends_per_node,
}

-- No key comes twice, no neighbour comes twice, and every neighbour is a key.
pub record IsGraph (g : Graph) : Type 0 where
  pub keys_unique : IsUnique (vertices g)
  pub sets_unique : All (λ (entry : ℕ × List ℕ). IsUnique entry.1) g
  pub closed : (v n : ℕ) → contains n (neighbours v g) ≡ true → contains n (vertices g) ≡ true

pub neighbours-IsUnique :
    (v : ℕ) (g : Graph)
    → All (λ (entry : ℕ × List ℕ). IsUnique entry.1) g
    → IsUnique (neighbours v g)
unfolding neighbours
neighbours-IsUnique v [] u = tt
neighbours-IsUnique v ((p, ns) ∷ g) u = elim (Bool-cases (p == v)) [
  | inl here ↦ rw here u.0
  | inr away ↦ rw away (neighbours-IsUnique v g u.1)
]

-- The parents of a vertex that are not yielded.
unfoldable pub pending : List ℕ → ℕ → Graph → ℕ
pending seen n [] = 0
pending seen n ((p, ns) ∷ g) =
    let rest = pending seen n g in if not (contains p seen) && contains n ns then suc rest else rest

pub pending_none :
    (seen : List ℕ) (n p : ℕ) (g : Graph)
    → pending seen n g ≡ 0
    → contains n (neighbours p g) ≡ true
    → contains p seen ≡ true
unfolding pending neighbours contains
pending_none seen n p [] e h = absurd (ground (arith, h))
pending_none seen n p ((u, ns) ∷ g) e h = ground (arith, pending_none seen n p g, ==_iff u p)

pending_absent :
    (seen : List ℕ) (v n : ℕ) (g : Graph)
    → contains v (vertices g) ≡ false
    → pending (v ∷ seen) n g ≡ pending seen n g
unfolding pending contains
pending_absent seen v n [] h = refl
pending_absent seen v n ((u, ns) ∷ g) h =
    ground (arith, pending_absent seen v n g, ==_iff u v, ==_iff v u)

-- A vertex that is yielded is one parent less for each of its neighbours.
pub pending_step :
    (seen : List ℕ) (v n : ℕ) (g : Graph)
    → IsUnique (vertices g)
    → contains v seen ≡ false
    → pending seen n g ≡ (
        if contains n (neighbours v g)
        then suc (pending (v ∷ seen) n g)
        else pending (v ∷ seen) n g)
unfolding pending contains neighbours
pending_step seen v n [] u h = refl
pending_step seen v n ((p, ns) ∷ g) u h =
    ground
      (arith, pending_step seen v n g u.1, u.0, pending_absent seen v n g, ==_iff p v, ==_iff v p)

depends-append :
    (n : ℕ) (l m : List (ℕ × ℕ))
    → depends_per_node (l ++ m) n ≡ depends_per_node l n + depends_per_node m n
unfolding depends_per_node
depends-append n [] m = omega arith
depends-append n ((h, t) ∷ l) m = ground (arith, depends-append n l m)

depends-map :
    (n p : ℕ) (ns : List ℕ)
    → IsUnique ns
    → depends_per_node (map (λ m. (p, m)) ns) n ≡ (if contains n ns then 1 else 0)
unfolding depends_per_node contains
depends-map n p [] u = refl
depends-map n p (x ∷ ns) u = ground (arith, depends-map n p ns u.1, u.0, ==_iff x n, ==_iff n x)

pub depends-pending :
    (n : ℕ) (g : Graph)
    → All (λ (entry : ℕ × List ℕ). IsUnique entry.1) g
    → depends_per_node (edges g) n ≡ pending [] n g
unfolding pending depends_per_node contains
depends-pending n [] u = refl
depends-pending n ((p, ns) ∷ g) u = ground (
  arith,
  depends-append n (map (λ m. (p, m)) ns) (edges g),
  depends-map n p ns u.0,
  depends-pending n g u.1,
)

pub pending_root :
    (n : ℕ) (g : Graph) → (pending [] n g ≡ 0) → contains n (dependency_vertices g) ≡ false
unfolding pending contains
pending_root n [] e = refl
pending_root n ((p, ns) ∷ g) e =
    ground (arith, pending_root n g, contains-append n ns (dependency_vertices g))

pub root-pending :
    (n : ℕ) (g : Graph) → contains n (dependency_vertices g) ≡ false → pending [] n g ≡ 0
unfolding pending contains
root-pending n [] e = refl
root-pending n ((p, ns) ∷ g) e =
    ground (arith, root-pending n g, contains-append n ns (dependency_vertices g))

pub neighbours_key :
    (p n : ℕ) (g : Graph) → contains n (neighbours p g) ≡ true → contains p (vertices g) ≡ true
unfolding neighbours contains
neighbours_key p n [] h = absurd (ground (arith, h))
neighbours_key p n ((u, ns) ∷ g) h = ground (arith, h, neighbours_key p n g, ==_iff u p, ==_iff p u)

pub pending_zero :
    (seen : List ℕ) (n : ℕ) (g : Graph)
    → IsUnique (vertices g)
    → ((p : ℕ) → contains n (neighbours p g) ≡ true → contains p seen ≡ true)
    → pending seen n g ≡ 0
unfolding pending neighbours contains
pending_zero seen n [] u h = refl
pending_zero seen n ((p, ns) ∷ g) u h = ground (
  arith,
  h p,
  ==_iff p p,
  pending_zero seen n g u.1
      (λ q m. ground (arith, m, h q, neighbours_key q n g m, u.0, ==_iff p q)),
)
