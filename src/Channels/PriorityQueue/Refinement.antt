-- ===== src/Channels/PriorityQueue/Refinement.antt =====
-- `PriorityQueue` (queue_job/jobrunner/channels.py) implements a set of objects from which the first one
-- is taken.
use others_addons.Base.{
  ℕ, ◌≡◌, ◌≢◌, refl, sym, ◌∙◌, inl, inr, Bool, true, false, not, ◌&&◌, ◌||◌, List, [], ◌∷◌, Option,
  none, some, ◌==◌, arith, contains,
}
use others_addons.Channels.PriorityQueue.{PriorityQueue, empty, member, peek, add, remove, pop}
use others_addons.Channels.PriorityQueue.Contents.{
  IsValid, empty-IsValid, add-IsValid, remove-IsValid, member-add, member-remove, taken_member,
  drained_member, member-Pops,
}
use others_addons.Channels.PriorityQueue.Pop.{
  pop-Pops, pop-IsValid, peek-IsValid, member-peek, pop-peek,
}
use others_addons.Channels.PriorityQueue.Order.{
  IsStrict, IsTotal, IsSorted, add-IsSorted, remove-IsSorted, pop-IsSorted, peek-IsSorted,
  pop_first,
}

-- The calls of a client.
pub data Op : Type 0 where
  adds : ℕ → Op
  removes : ℕ → Op
  looks : Op
  takes : Op

module _ (lt : ℕ → ℕ → Bool) where
  unfoldable pub call : Op → PriorityQueue → PriorityQueue × Option ℕ
  call (adds o) q = (add lt o q, none)
  call (removes o) q = (remove o q, none)
  call looks q = peek q
  call takes q = pop q

  -- What the calls answer.
  unfoldable pub answers : List Op → PriorityQueue → List (Option ℕ)
  answers [] q = []
  answers (op ∷ ops) q = (call op q).1 ∷ answers ops (call op q).0

  -- The object of a set that comes before all others, or none of an empty set.
  abbrev pub IsFirstOf : (ℕ → Bool) → Option ℕ → Type 0
  IsFirstOf s none = (x : ℕ) → s x ≡ false
  IsFirstOf s (some o) = (s o ≡ true) × ((x : ℕ) → s x ≡ true → x ≢ o → lt o x ≡ true)

  abbrev pub without : Option ℕ → (ℕ → Bool) → ℕ → Bool
  without none s x = s x
  without (some o) s x = not (x == o) && s x

  -- What a set may answer to the same calls.
  pub data Allows : (ℕ → Bool) → List Op → List (Option ℕ) → Type 0 where
    ends : (s : ℕ → Bool) → Allows s [] []
    added :
        (s : ℕ → Bool) (o : ℕ) (ops : List Op) (outs : List (Option ℕ))
        → Allows (λ x. x == o || s x) ops outs
        → Allows s (adds o ∷ ops) (none ∷ outs)
    removed :
        (s : ℕ → Bool) (o : ℕ) (ops : List Op) (outs : List (Option ℕ))
        → Allows (λ x. not (x == o) && s x) ops outs
        → Allows s (removes o ∷ ops) (none ∷ outs)
    looked :
        (s : ℕ → Bool) (r : Option ℕ) (ops : List Op) (outs : List (Option ℕ))
        → IsFirstOf s r
        → Allows s ops outs
        → Allows s (looks ∷ ops) (r ∷ outs)
    popped :
        (s : ℕ → Bool) (r : Option ℕ) (ops : List Op) (outs : List (Option ℕ))
        → IsFirstOf s r
        → Allows (without r s) ops outs
        → Allows s (takes ∷ ops) (r ∷ outs)

  module _ (strict : IsStrict lt) (total : IsTotal lt) where
    IsFirstOf-pop :
        (q : PriorityQueue) (s : ℕ → Bool)
        → ((x : ℕ) → member x q ≡ s x)
        → IsValid q
        → IsSorted lt q.heap
        → (r : Option ℕ) → (pop q).1 ≡ r
        → IsFirstOf s r × ((x : ℕ) → member x (pop q).0 ≡ without r s x)
    IsFirstOf-pop q s same valid sorted none e = (
      λ x. sym (same x) ∙ drained_member x (pop-Pops q valid) e,
      λ x. ground (arith, member-Pops x (pop-Pops q valid), e, same x),
    )
    IsFirstOf-pop q s same valid sorted (some o) e =
        let (here, rest) = taken_member o (pop-Pops q valid) e in
        (
          (
            sym (same o) ∙ here,
            λ x m away. elim (total x o away) [
              | inl before ↦
                  absurd
                    (ground (arith, before, pop_first lt strict q o x valid sorted e (same x ∙ m)))
              | inr after ↦ after
            ],
          ),
          λ x. ground (arith, rest x, same x),
        )

    answers-Allows :
        (ops : List Op) (q : PriorityQueue) (s : ℕ → Bool)
        → ((x : ℕ) → member x q ≡ s x)
        → IsValid q
        → IsSorted lt q.heap
        → Allows s ops (answers ops q)
    unfolding answers call
    answers-Allows [] q s same valid sorted = ends s
    answers-Allows (adds o ∷ ops) q s same valid sorted = added s o ops (answers ops (add lt o q)) (
        answers-Allows ops (add lt o q) (λ x. x == o || s x)
          (λ x. ground (arith, member-add lt x o q, same x)) (add-IsValid lt o q valid)
          (add-IsSorted lt strict o q sorted))
    answers-Allows (removes o ∷ ops) q s same valid sorted =
        removed s o ops (answers ops (remove o q)) (
          answers-Allows ops (remove o q) (λ x. not (x == o) && s x)
            (λ x. ground (arith, member-remove x o q, same x)) (remove-IsValid o q valid)
            (remove-IsSorted lt strict o q sorted))
    answers-Allows (looks ∷ ops) q s same valid sorted =
        looked s (peek q).1 ops (answers ops (peek q).0)
          (IsFirstOf-pop q s same valid sorted (peek q).1 (sym (pop-peek q).0)).0
          (answers-Allows ops (peek q).0 s (λ x. member-peek q x ∙ same x) (peek-IsValid q valid)
            (peek-IsSorted lt strict q sorted))
    answers-Allows (takes ∷ ops) q s same valid sorted =
        let (first, rest) = IsFirstOf-pop q s same valid sorted (pop q).1 refl in
        popped s (pop q).1 ops (answers ops (pop q).0) first (
          answers-Allows ops (pop q).0 (without (pop q).1 s) rest (pop-IsValid q valid)
            (pop-IsSorted lt strict q sorted))

    -- From an empty queue, whatever calls follow each other, the queue answers what a set of the
    -- objects may answer, when the comparison of the objects is a strict total order: `self[0]` and `pop`
    -- give the object of the set that comes before all others, and none just when the set is empty
    -- (`self[0]` raises its `IndexError` then, and `pop` returns `None`), and `pop` takes the object out. Objects
    -- that are removed and added again while they are still in the heap make no difference.
    pub answers-empty-Allows : (ops : List Op) → Allows (λ x. false) ops (answers ops empty)
    unfolding member contains
    answers-empty-Allows ops = answers-Allows ops empty (λ x. false) (λ x. refl) empty-IsValid tt
