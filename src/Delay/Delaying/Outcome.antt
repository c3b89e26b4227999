-- ===== src/Delay/Delaying/Outcome.antt =====
-- What `DelayableGraph.delay` stores (queue_job/delay.py).
use others_addons.Base.{
  In, Option, ℕ, ◌≡◌, ◌⊎◌, true, false, List, [], ◌∷◌, ◌++◌, map, none, some, contains, All,
}
use others_addons.Delay.Graph.{Graph, vertices, edges}
use others_addons.Delay.Delaying.{Setting, Plan}
use others_addons.Delay.Delaying.Uuids.{Fits}

-- The vertices that have an identity key have a stored job with it.
abbrev pub AllExist : Setting → List ℕ → Type 0
AllExist setting vs =
    (w : ℕ)
    → contains w vs ≡ true
    → setting.has_key w ≡ true
    → (job : ℕ) × (setting.existing w ≡ some job)

abbrev pub SomeMissing : Setting → List ℕ → Type 0
SomeMissing setting vs =
    (v : ℕ) × (contains v vs ≡ true) × (setting.has_key v ≡ true) × (setting.existing v ≡ none)

abbrev pub NoKeys : Setting → List ℕ → Type 0
NoKeys setting vs = (w : ℕ) → contains w vs ≡ true → setting.has_key w ≡ false

-- The mapping after the loop: empty behind a `break`, or longer by the entries of the vertices.
data Maps (setting : Setting) (vs : List ℕ) (mapping : List (ℕ × ℕ)) : List (ℕ × ℕ) → Type 0 where
  breaks : SomeMissing setting vs → Maps setting vs mapping []
  maps :
      (entries : List (ℕ × ℕ))
      → AllExist setting vs
      → All (λ e. setting.existing e.0 ≡ some e.1) entries
      → (entries ≡ [] → NoKeys setting vs)
      → Maps setting vs mapping (mapping ++ entries)

-- How a graph is delayed: its jobs are all stored, or none is.
pub data Delays (setting : Setting) (vs : List ℕ) (plan : Plan) : Type 0 where
  stores :
      plan.stored ≡ vs
      → plan.replaced ≡ []
      → (SomeMissing setting vs) ⊎ (NoKeys setting vs)
      → Delays setting vs plan
  finds :
      (v job : ℕ)
      → plan.stored ≡ []
      → plan.replaced ≡ (v, job) ∷ []
      → setting.existing v ≡ some job
      → AllExist setting vs
      → Delays setting vs plan

-- A job that depends on itself.
abbrev pub HasLoop : List (ℕ × ℕ) → Type 0
HasLoop links = (v : ℕ) × In (v, v) links

-- What `delay` does: it fails, or it delays the graph.
pub data Outcome (setting : Setting) (graph : Graph) : Option Plan → Type 0 where
  refused :
      (HasLoop (edges graph)) ⊎ (¬ Fits (map setting.graph_uuid_of (vertices graph)))
      → Outcome setting graph none
  delayed :
      (plan : Plan)
      → ¬ HasLoop (edges graph)
      → Fits (map setting.graph_uuid_of (vertices graph))
      → plan.depends ≡ edges graph
      → Delays setting (vertices graph) plan
      → Outcome setting graph (some plan)
