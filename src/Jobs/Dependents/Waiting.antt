-- ===== src/Jobs/Dependents/Waiting.antt =====
-- No job waits for jobs that are all done (queue_job/models/queue_job.py, `_change_job_state`).
use Prim.Native.String.{String}
use others_addons.Base.{
  ℕ, ◌≡◌, refl, subst, ◌⊎◌, inl, inr, true, false, not, ◌||◌, List, [], ◌∷◌, Option, arith, ◌==◌,
  ==_iff, if◌then◌else◌, Bool-cases, contains, In,
}
use others_addons.Jobs.State.{
  State, wait_dependencies, pending, done, cancelled, is_state, any_not_done,
}
use others_addons.Jobs.Job.{Job, set_pending, set_done, set_cancelled}
use others_addons.Jobs.Dependents.{
  Row, Table, put, is_parent, parent_states, all_states, is_released, release,
  cancel_dependent_jobs, change_job, states_of,
}
use others_addons.Jobs.Dependents.Rows.{
  changed, In-put, put_elim, IsLinked, put-IsLinked, find_job-eq, parents_cases, parent_states_some,
}

-- A row has a parent that is not done.
abbrev pub IsBlocked : Table → Row → Type 0
IsBlocked t child =
    (p : Row) × In p t × (is_parent p child ≡ true) × (is_state p.job.state done ≡ false)

-- Every row that waits for its parents has one that is not done.
abbrev pub WaitsForSome : Table → Type 0
WaitsForSome t =
    (child : Row)
    → In child t
    → is_state child.job.state wait_dependencies ≡ true
    → IsBlocked t child

abbrev KeepsUndone : (Row → Job) → Type 0
KeepsUndone f = (r : Row) → is_state r.job.state done ≡ false → is_state (f r).state done ≡ false

put-IsBlocked :
    (f : Row → Job) (t : Table) (child : Row)
    → KeepsUndone f
    → IsBlocked t child
    → IsBlocked (put f t) (changed f child)
put-IsBlocked f t child k (p, m, parent, undone) = (changed f p, In-put f t p m, parent, k p undone)

-- The query leaves no row that waits for none.
pub release-WaitsForSome :
    (state required : State) (uuid : ℕ) (t : Table)
    → is_state state wait_dependencies ≡ false
    → is_state state done ≡ false
    → ((child : Row)
        → In child t
        → is_state child.job.state wait_dependencies ≡ true
        → IsBlocked t child ⊎ (is_released required uuid t child ≡ true))
    → WaitsForSome (release state required uuid t)
unfolding release
release-WaitsForSome state required uuid t w d h =
    let f : Row → Job = λ child.
      if is_released required uuid t child then record child.job { state = state } else child.job in
    let keeps : KeepsUndone f = λ r undone. elim (Bool-cases (is_released required uuid t r)) [
      | inl freed ↦ rw freed d
      | inr kept ↦ rw kept undone
    ] in
    put_elim f t (λ c. is_state c.job.state wait_dependencies ≡ true → IsBlocked (put f t) c)
      (λ c m. elim (Bool-cases (is_released required uuid t c)) [
        | inl freed ↦ λ e. absurd (ground (arith, w, rw freed at e))
        | inr kept ↦ λ e. elim (h c m (rw kept at e)) [
          | inl blocked ↦ put-IsBlocked f t c keeps blocked
          | inr freed ↦ absurd (ground (arith, freed, kept))
        ]
      ])

-- The query updates a waiting child of the job, if all parents of the child are in the state.
released_by :
    (required : State) (t : Table) (p child : Row)
    → IsLinked t
    → In p t
    → In child t
    → is_parent p child ≡ true
    → all_states required (parent_states t child) ≡ true
    → is_state child.job.state wait_dependencies ≡ true
    → is_released required p.uuid t child ≡ true
unfolding is_released
released_by required t p child links m n parent all waiting =
    let depends : contains p.uuid child.depends_on ≡ true = ground (arith, parent) in
    let (_, graph, link) = links.linked p child m n depends in
    rw (find_job-eq t p links m, is_released)
      (ground (arith, graph, link, parent_states_some t p child m parent, all, waiting))

-- `any(j.state != DONE for j in self.depends_on)` finds a job.
states_of_some :
    (uuids : List ℕ) (t : Table)
    → any_not_done (states_of uuids t) ≡ true
    → (p : Row) × In p t × (contains p.uuid uuids ≡ true) × (is_state p.job.state done ≡ false)
unfolding states_of any_not_done
states_of_some uuids [] h = absurd (ground (arith, h))
states_of_some uuids (x ∷ t) h = elim (Bool-cases (contains x.uuid uuids)) [
  | inr away ↦ let (p, m, e, u) = states_of_some uuids t (rw away at h) in (p, inr m, e, u)
  | inl here ↦ elim (Bool-cases (is_state x.job.state done)) [
    | inr undone ↦ (x, inl refl, here, undone)
    | inl is_done ↦
        let h' : not (is_state x.job.state done) || any_not_done (states_of uuids t) ≡ true =
          rw here at h in
        let (p, m, e, u) = states_of_some uuids t (rw is_done at h') in (p, inr m, e, u)
  ]
]

-- The state that `set_pending` sets.
pending_state :
    (parents : List State)
    → (let state = if any_not_done parents then wait_dependencies else pending in
        (is_state state done ≡ false)
        × (is_state state wait_dependencies ≡ true → any_not_done parents ≡ true))
pending_state parents = elim (Bool-cases (any_not_done parents)) [
  | inl some_left ↦ rw some_left (refl, λ e. refl)
  | inr all_done ↦ rw all_done (refl, λ e. e)
]

module _ (now : ℕ) (uuid : ℕ) (t : Table) (links : IsLinked t) (waits : WaitsForSome t) where
  -- After the change of the job, a row still waits for one that is not done.
  change_job-IsBlocked :
      (f : Row → Job)
      → ((r : Row) → is_state (f r).state done ≡ false)
      → (child : Row) → IsBlocked t child
      → IsBlocked (change_job uuid f t) child
  unfolding change_job
  change_job-IsBlocked f undone child blocked =
      put-IsBlocked (λ r. if r.uuid == uuid then f r else r.job) t child
        (λ r u. elim (Bool-cases (r.uuid == uuid)) [
          | inl same ↦ rw same (undone r)
          | inr other ↦ rw other u
        ])
        blocked

  pub set_done-IsBlocked :
      (result : Option String)
      → (let t' = change_job uuid (λ r. set_done now result r.job) t in
          (child : Row)
          → In child t'
          → is_state child.job.state wait_dependencies ≡ true
          → IsBlocked t' child ⊎ (is_released done uuid t' child ≡ true))
  unfolding change_job set_done is_released
  set_done-IsBlocked result =
      let f : Row → Job = λ r. if r.uuid == uuid then set_done now result r.job else r.job in
      put_elim f t
        (λ c.
          is_state c.job.state wait_dependencies ≡ true
          → IsBlocked (put f t) c ⊎ (is_released done uuid (put f t) c ≡ true))
        (λ c m w. elim (parents_cases done (put f t) (changed f c)) [
          | inr (p, n, parent, undone) ↦ inl (p, n, parent, undone)
          | inl all ↦ elim (Bool-cases (c.uuid == uuid)) [
            | inl same ↦ absurd (ground (arith, rw same at w))
            | inr other ↦
                let (p, n, parent, undone) = waits c m (rw other at w) in
                elim (Bool-cases (p.uuid == uuid)) [
                  | inl here ↦
                      let e : p.uuid ≡ uuid = ground (arith, ==_iff p.uuid uuid) in
                      inr (
                        subst (λ u. is_released done u (put f t) (changed f c) ≡ true) e
                          (released_by done (put f t) (changed f p) (changed f c)
                            (put-IsLinked f t links) (In-put f t p n) (In-put f t c m) parent all
                            w))
                  | inr away ↦ inl (changed f p, In-put f t p n, parent, rw away undone)
                ]
          ]
        ])

  pub set_cancelled-WaitsForSome :
      (result : Option String)
      → WaitsForSome
          (cancel_dependent_jobs uuid (change_job uuid (λ r. set_cancelled now result r.job) t))
  unfolding cancel_dependent_jobs change_job set_cancelled
  set_cancelled-WaitsForSome result =
      let f : Row → Job = λ r. if r.uuid == uuid then set_cancelled now result r.job else r.job in
      release-WaitsForSome cancelled cancelled uuid (put f t) refl refl (
        put_elim f t
          (λ c.
            is_state c.job.state wait_dependencies ≡ true
            → IsBlocked (put f t) c ⊎ (is_released cancelled uuid (put f t) c ≡ true))
          (λ c m w. elim (Bool-cases (c.uuid == uuid)) [
            | inl same ↦ absurd (ground (arith, rw same at w))
            | inr other ↦ inl (
                change_job-IsBlocked (λ r. set_cancelled now result r.job) (λ r. refl) c
                  (waits c m (rw other at w)))
          ]))

  pub set_pending-WaitsForSome :
      (result : Option String)
      → WaitsForSome
          (change_job uuid (λ r. set_pending (states_of r.depends_on t) result true r.job) t)
  unfolding change_job set_pending
  set_pending-WaitsForSome result =
      let g : Row → Job = λ r. set_pending (states_of r.depends_on t) result true r.job in
      let f : Row → Job = λ r. if r.uuid == uuid then g r else r.job in
      put_elim f t (λ c. is_state c.job.state wait_dependencies ≡ true → IsBlocked (put f t) c)
        (λ c m w.
          change_job-IsBlocked g (λ r. (pending_state (states_of r.depends_on t)).0) c
            (elim (Bool-cases (c.uuid == uuid)) [
              | inr other ↦ waits c m (rw other at w)
              | inl same ↦
                  let (p, n, depends, undone) =
                    states_of_some c.depends_on t
                      ((pending_state (states_of c.depends_on t)).1 (rw same at w)) in
                  (p, n, ground (arith, links.linked p c n m depends, depends), undone)
            ]))
