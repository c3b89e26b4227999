-- ===== src/Jobs/Dependents/Attempts.antt =====
-- The retry loop of `_enqueue_dependent_jobs` (queue_job/controllers/main.py).
use others_addons.Base.{
  ℕ, zero, suc, ◌+◌, ◌≤◌, ◌<◌, ◌≡◌, refl, ◌⊎◌, inl, inr, true, List, [], ◌∷◌, Option, none, some,
  arith, leb, leb→le, ◌==◌, ==_iff, subst, Bool-cases, Option-cases,
}
use others_addons.Jobs.Run.{Error}
use others_addons.Jobs.Dependents.{
  retry_loop, enqueue_dependent_jobs, depends_max_tries, is_concurrency,
}

-- An attempt fails for a reason that may pass.
abbrev pub FailsFor : Option Error → Type 0
FailsFor outcome = (error : Error) × (outcome ≡ some error) × (is_concurrency error ≡ true)

-- The last of the attempts that were made from a count of tries on, and its outcome.
pub record Stops (attempt : ℕ → Option Error) (tries last : ℕ) : Type 0 where
  pub from : tries ≤ last
  pub bounded : last ≤ depends_max_tries
  pub before : (n : ℕ) → tries ≤ n → n < last → FailsFor (attempt n)
  pub final : (last ≡ depends_max_tries) ⊎ (¬ FailsFor (attempt last))

Stops-here :
    (attempt : ℕ → Option Error) (tries : ℕ)
    → tries ≤ depends_max_tries
    → (tries ≡ depends_max_tries) ⊎ (¬ FailsFor (attempt tries))
    → Stops attempt tries tries
Stops-here attempt tries b final = record {
  from = omega arith;
  bounded = b;
  before = λ n lower upper. absurd (omega (arith, lower, upper));
  final = final;
}

goes_on :
    (attempt : ℕ → Option Error) (tries last : ℕ)
    → FailsFor (attempt tries)
    → Stops attempt (suc tries) last
    → Stops attempt tries last
goes_on attempt tries last fails s = record {
  from = omega (arith, s.from);
  bounded = s.bounded;
  before = λ n lower upper. elim (Bool-cases (n == tries)) [
    | inl same ↦ subst (λ k. FailsFor (attempt k)) (ground (arith, ==_iff n tries)) fails
    | inr other ↦ s.before n (ground (arith, ==_iff n tries)) upper
  ];
  final = s.final;
}

retry_loop-Stops :
    (attempt : ℕ → Option Error) (fuel tries : ℕ)
    → fuel + tries ≡ suc depends_max_tries
    → 0 < fuel
    → (last : ℕ) × Stops attempt tries last
      × (retry_loop attempt fuel tries ≡ some (suc last, attempt last))
unfolding retry_loop
retry_loop-Stops attempt zero tries e h = absurd (omega (arith, h))
retry_loop-Stops attempt (suc fuel) tries e h = elim (Option-cases (attempt tries)) [
  | inl fine ↦ (
    tries,
    Stops-here attempt tries (omega (arith, e)) (inr (λ (error, raised, c). absurd (cc))),
    rw (fine, retry_loop) refl,
  )
  | inr (error, raised) ↦ elim (Bool-cases (is_concurrency error)) [
    | inr hard ↦ (
      tries,
      Stops-here attempt tries (omega (arith, e)) (inr (λ (error', raised', c). absurd (cc))),
      rw (raised, retry_loop) (rw hard refl),
    )
    | inl soft ↦ elim (Bool-cases (leb depends_max_tries tries)) [
      | inl limit ↦ (
        tries,
        Stops-here attempt tries (omega (arith, e))
            (inl (omega (arith, e, leb→le depends_max_tries tries limit))),
        rw (raised, retry_loop) (rw soft (rw limit refl)),
      )
      | inr below ↦
          let (last, s, r) =
            retry_loop-Stops attempt fuel (suc tries) (omega (arith, e)) (ground arith) in
          (
            last,
            goes_on attempt tries last (error, raised, soft) s,
            rw (raised, retry_loop) (rw soft (rw below r)),
          )
    ]
  ]
]

-- `enqueue_waiting` is attempted at most once and `DEPENDS_MAX_TRIES_ON_CONCURRENCY_FAILURE` times
-- again. The last attempt is the first that does not fail for a concurrency error, or that at the
-- maximum, and an exception of it is what is raised. A job on which none depends makes no attempt.
pub enqueue_dependent_jobs-Stops :
    (dependents : List ℕ) (attempt : ℕ → Option Error)
    → ((dependents ≡ []) × (enqueue_dependent_jobs dependents attempt ≡ some (0, none)))
      ⊎ ((last : ℕ) × Stops attempt 0 last
          × (enqueue_dependent_jobs dependents attempt ≡ some (suc last, attempt last)))
unfolding enqueue_dependent_jobs
enqueue_dependent_jobs-Stops [] attempt = inl (refl, refl)
enqueue_dependent_jobs-Stops (uuid ∷ uuids) attempt =
    inr (retry_loop-Stops attempt (suc depends_max_tries) 0 (omega arith) (omega arith))
