-- ===== src/Jobs/Dependents/Rows.antt =====
-- The rows of the table `queue_job` after a change of their jobs, and links between rows.
use others_addons.Base.{
  ℕ, ◌≡◌, refl, sym, ap, subst, ◌≢◌, ◌∙◌, ◌⊎◌, inl, inr, true, false, [], ◌∷◌, some, arith, ◌==◌,
  ==_iff, Bool-cases, contains, In,
}
use others_addons.Jobs.State.{State, is_state}
use others_addons.Jobs.Job.{Job}
use others_addons.Jobs.Dependents.{
  Row, Table, put, find_job, same_graph, is_parent, parent_states, all_states, is_nil,
}

abbrev pub changed : (Row → Job) → Row → Row
changed f r = record r { job = f r }

pub In-put : (f : Row → Job) (t : Table) (r : Row) → In r t → In (changed f r) (put f t)
unfolding put
In-put f [] r m = m
In-put f (x ∷ t) r (inl e) = inl (ap (changed f) e)
In-put f (x ∷ t) r (inr m) = inr (In-put f t r m)

-- What holds of the rows as they are changed holds of every row of the changed table.
pub put_elim :
    (f : Row → Job) (t : Table) (P : Row → Type 0)
    → ((r : Row) → In r t → P (changed f r))
    → (r : Row) → In r (put f t)
    → P r
unfolding put
put_elim f [] P h r m = absurd m
put_elim f (x ∷ t) P h r (inl e) = subst P (sym e) (h x (inl refl))
put_elim f (x ∷ t) P h r (inr m) = put_elim f t P (λ s n. h s (inr n)) r m

-- The two ends of a link know of each other and share a graph.
abbrev pub IsLink : Row → Row → Type 0
IsLink p child =
    contains p.uuid child.depends_on ≡ true
    → (same_graph p.graph_uuid child.graph_uuid ≡ true)
      × (same_graph child.graph_uuid p.graph_uuid ≡ true)
      × (contains child.uuid p.reverse_depends_on ≡ true)

-- Every uuid names one row, and the links agree.
pub record IsLinked (t : Table) : Type 0 where
  pub unique : (r s : Row) → In r t → In s t → r.uuid ≡ s.uuid → r ≡ s
  pub linked : (p child : Row) → In p t → In child t → IsLink p child

pub put-IsLinked : (f : Row → Job) (t : Table) → IsLinked t → IsLinked (put f t)
put-IsLinked f t l = record {
  unique = λ r s m n.
      put_elim f t (λ r. r.uuid ≡ s.uuid → r ≡ s)
        (λ r' m'.
          put_elim f t (λ s. r'.uuid ≡ s.uuid → changed f r' ≡ s)
            (λ s' n' e. ap (changed f) (l.unique r' s' m' n' e)) s n)
        r m;
  linked = λ p child m n.
      put_elim f t (λ p. IsLink p child)
        (λ p' m'.
          put_elim f t (λ child. IsLink p' child) (λ child' n'. l.linked p' child' m' n') child n)
        p m;
}

find_job_cases :
    (uuid : ℕ) (t : Table)
    → ((r : Row) × In r t × (r.uuid ≡ uuid) × (find_job uuid t ≡ some r))
      ⊎ ((r : Row) → In r t → r.uuid ≢ uuid)
unfolding find_job
find_job_cases uuid [] = inr (λ r m e. m)
find_job_cases uuid (x ∷ t) = elim (Bool-cases (x.uuid == uuid)) [
  | inl here ↦ inl (x, inl refl, ground (arith, ==_iff x.uuid uuid), rw here refl)
  | inr away ↦ elim (find_job_cases uuid t) [
    | inl (r, m, e, found) ↦ inl (r, inr m, e, rw away found)
    | inr none_of ↦ inr (λ r m e. elim m [
      | inl same ↦ ground (arith, ==_iff x.uuid uuid, ap (λ y. y.uuid) same)
      | inr n ↦ none_of r n e
    ])
  ]
]

pub find_job-eq : (t : Table) (r : Row) → IsLinked t → In r t → find_job r.uuid t ≡ some r
find_job-eq t r l m = elim (find_job_cases r.uuid t) [
  | inl (s, n, e, found) ↦ found ∙ ap some (l.unique s r n m e)
  | inr none_of ↦ absurd (none_of r m refl)
]

-- Either every parent of a row is in a state, or one is not.
pub parents_cases :
    (state : State) (t : Table) (child : Row)
    → (all_states state (parent_states t child) ≡ true)
      ⊎ ((p : Row) × In p t × (is_parent p child ≡ true) × (is_state p.job.state state ≡ false))
unfolding parent_states all_states
parents_cases state [] child = inl refl
parents_cases state (x ∷ t) child = elim (parents_cases state t child) [
  | inr (p, m, parent, s) ↦ inr (p, inr m, parent, s)
  | inl rest ↦ elim (Bool-cases (is_parent x child)) [
    | inl parent ↦ elim (Bool-cases (is_state x.job.state state)) [
      | inl s ↦ inl (rw parent (rw (s, all_states) rest))
      | inr s ↦ inr (x, inl refl, parent, s)
    ]
    | inr other ↦ inl (rw other rest)
  ]
]

pub parent_states_some :
    (t : Table) (p child : Row)
    → In p t
    → is_parent p child ≡ true
    → is_nil (parent_states t child) ≡ false
unfolding parent_states
parent_states_some [] p child m parent = absurd m
parent_states_some (x ∷ t) p child (inl e) parent =
    rw (ap (λ y. is_parent y child) (sym e) ∙ parent) refl
parent_states_some (x ∷ t) p child (inr m) parent = elim (Bool-cases (is_parent x child)) [
  | inl h ↦ rw h refl
  | inr h ↦ rw h (parent_states_some t p child m parent)
]
