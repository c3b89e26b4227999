-- ===== src/Delay/Delaying/Uuids.antt =====
-- When jobs may share a `graph_uuid` (queue_job/delay.py, `_ensure_same_graph_uuid`).
use others_addons.Base.{
  bind-some, ◌>>=◌, Option, ℕ, ◌≡◌, ◌≢◌, refl, ap, subst, ◌∙◌, sym, ◌⊎◌, inl, inr, true, false,
  List, [], ◌∷◌, none, some, if_true, ◌||◌, ◌==◌, ==_iff, contains, contains-add, add as add_to_set,
  arith, All, some-injective,
}
use others_addons.Delay.Delaying.{graph_uuids, shared_uuid, ensure_same_graph_uuid}

abbrev IsNoneOr : ℕ → Option ℕ → Type 0
IsNoneOr u job = (job ≡ none) ⊎ (job ≡ some u)

-- The jobs may be in one graph, by their `graph_uuid`s: there are some, a single one has none, and
-- no two of them have different ones.
abbrev pub Fits : List (Option ℕ) → Type 0
Fits [] = ⊥
Fits (job ∷ []) = job ≡ none
Fits (job ∷ other ∷ jobs) = (u : ℕ) × All (IsNoneOr u) (job ∷ other ∷ jobs)

-- The uuids that the jobs have are in the set.
graph_uuids-All :
    (jobs : List (Option ℕ)) (uuids : List ℕ)
    → ((u : ℕ) → contains u (graph_uuids jobs) ≡ true → contains u uuids ≡ true)
    → All (λ job. (job ≡ none) ⊎ ((u : ℕ) × (job ≡ some u) × (contains u uuids ≡ true))) jobs
unfolding graph_uuids
graph_uuids-All [] uuids h = tt
graph_uuids-All (none ∷ jobs) uuids h = (inl refl, graph_uuids-All jobs uuids h)
graph_uuids-All (some u ∷ jobs) uuids h = (
  inr (u, refl, h u (ground (arith, contains-add u u (graph_uuids jobs), ==_iff u u))),
  graph_uuids-All jobs uuids (λ v m. h v (ground (arith, contains-add v u (graph_uuids jobs), m))),
)

All-IsNoneOr :
    (u : ℕ) (uuids : List ℕ) (jobs : List (Option ℕ))
    → ((v : ℕ) → contains v uuids ≡ true → v ≡ u)
    → All (λ job. (job ≡ none) ⊎ ((v : ℕ) × (job ≡ some v) × (contains v uuids ≡ true))) jobs
    → All (IsNoneOr u) jobs
All-IsNoneOr u uuids [] h all = tt
All-IsNoneOr u uuids (job ∷ jobs) h (inl e, all) = (inl e, All-IsNoneOr u uuids jobs h all)
All-IsNoneOr u uuids (job ∷ jobs) h (inr (v, e, m), all) =
    (inr (e ∙ ap (λ w. some w) (h v m)), All-IsNoneOr u uuids jobs h all)

shared_uuid-All :
    (fresh u : ℕ) (jobs : List (Option ℕ)) (uuids : List ℕ)
    → graph_uuids jobs ≡ uuids
    → shared_uuid fresh uuids ≡ some u
    → All (IsNoneOr u) jobs
unfolding shared_uuid contains
shared_uuid-All fresh u jobs [] same e =
    All-IsNoneOr u [] jobs (λ v m. absurd (ground (arith, m)))
      (graph_uuids-All jobs [] (λ v m. subst (λ l. contains v l ≡ true) same m))
shared_uuid-All fresh u jobs (w ∷ []) same e =
    All-IsNoneOr u (w ∷ []) jobs (λ v m. (==_iff v w).0 (ground (arith, m)) ∙ some-injective w u e)
      (graph_uuids-All jobs (w ∷ []) (λ v m. subst (λ l. contains v l ≡ true) same m))
shared_uuid-All fresh u jobs (v ∷ w ∷ uuids) same e = absurd (ground (arith, e))

graph_uuids-one :
    (u : ℕ) (jobs : List (Option ℕ))
    → All (IsNoneOr u) jobs
    → (graph_uuids jobs ≡ []) ⊎ (graph_uuids jobs ≡ u ∷ [])
unfolding graph_uuids add_to_set contains
graph_uuids-one u [] all = inl refl
graph_uuids-one u (none ∷ jobs) (first, all) = graph_uuids-one u jobs all
graph_uuids-one u (some v ∷ jobs) (inl e, all) = absurd (ground (arith, e))
graph_uuids-one u (some v ∷ jobs) (inr e, all) =
    let same : v ≡ u = some-injective v u e in
    elim (graph_uuids-one u jobs all) [
      | inl none_yet ↦ inr (rw (none_yet, same) refl)
      | inr already ↦ inr (
          rw (already, same)
            (if_true (u == u || false) (u ∷ []) (u ∷ u ∷ []) (ground (arith, ==_iff u u))))
    ]

shared_uuid-some :
    (fresh u : ℕ) (uuids : List ℕ)
    → (uuids ≡ []) ⊎ (uuids ≡ u ∷ [])
    → shared_uuid fresh uuids ≢ none
unfolding shared_uuid
shared_uuid-some fresh u uuids (inl e) h = ground (arith, ap (shared_uuid fresh) (sym e) ∙ h)
shared_uuid-some fresh u uuids (inr e) h = ground (arith, ap (shared_uuid fresh) (sym e) ∙ h)

bind-none : {A B : Type 0} (o : Option A) (f : A → B) → (o >>= (λ a. some (f a))) ≡ none → o ≡ none
bind-none none f h = refl
bind-none (some a) f h = absurd (ground (arith, h))

pub ensure_same_graph_uuid-Fits :
    (fresh : ℕ) (jobs uuids : List (Option ℕ))
    → ensure_same_graph_uuid fresh jobs ≡ some uuids
    → Fits jobs
unfolding ensure_same_graph_uuid
ensure_same_graph_uuid-Fits fresh [] uuids h = absurd (ground (arith, h))
ensure_same_graph_uuid-Fits fresh (none ∷ []) uuids h = refl
ensure_same_graph_uuid-Fits fresh (some u ∷ []) uuids h = absurd (ground (arith, h))
ensure_same_graph_uuid-Fits fresh (job ∷ other ∷ jobs) uuids h =
    let (u, e, h2) = bind-some (shared_uuid fresh (graph_uuids (job ∷ other ∷ jobs))) _ uuids h in
    (u, shared_uuid-All fresh u (job ∷ other ∷ jobs) _ refl e)

pub ensure_same_graph_uuid-none :
    (fresh : ℕ) (jobs : List (Option ℕ)) → ensure_same_graph_uuid fresh jobs ≡ none → ¬ Fits jobs
unfolding ensure_same_graph_uuid
ensure_same_graph_uuid-none fresh [] h fits = fits
ensure_same_graph_uuid-none fresh (none ∷ []) h fits = ground (arith, h)
ensure_same_graph_uuid-none fresh (some u ∷ []) h fits = ground (arith, fits)
ensure_same_graph_uuid-none fresh (job ∷ other ∷ jobs) h (u, all) =
    shared_uuid-some fresh u _ (graph_uuids-one u (job ∷ other ∷ jobs) all) (bind-none _ _ h)
