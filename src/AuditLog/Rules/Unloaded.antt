-- ===== src/AuditLog/Rules/Unloaded.antt =====
-- Rules on a model that is not loaded (auditlog/models/auditlog_rule.py).

use others_addons.Base.{
  bind-some, ◌≡◌, refl, ap, ◌∙◌, sym, inl, inr, false, ◌&&◌, ◌||◌, List, [], ◌∷◌, none, some, ◌>>=◌,
  arith, Bool-cases, Option-cases, if_true, if_false, some-injective, In,
}
use others_addons.AuditLog.Rules.{
  Rule, Registry, set_class, model_name, is_confirmed, revert_step, through_each, all_methods,
  above_of,
}
use others_addons.AuditLog.Rules.Actions.{
  patch_rule, revert_rule, reverts, revert_loop, revert_methods, set_to_draft, unlink,
}

-- A turn of the loop does not change which models are loaded.
revert_rule-loaded :
    (rule : Rule) (registry after : Registry)
    → revert_rule rule registry ≡ some after
    → registry.loaded ≡ after.loaded
unfolding revert_rule set_class
revert_rule-loaded rule registry after h = elim (Bool-cases (registry.loaded (model_name rule))) [
  | inl loaded ↦
      let (cls, e, h2) =
        bind-some
          (through_each (revert_step rule (above_of registry (model_name rule))) all_methods
            (registry.classes (model_name rule)))
          _ after (sym (if_true _ _ _ loaded) ∙ h) in
      ap (λ r. Registry.loaded r) (some-injective _ _ h2)
  | inr gone ↦ absurd (ground (arith, sym (if_false _ _ _ gone) ∙ h))
]

revert_loop-unloaded :
    (rules : List Rule) (registry : Registry) (rule : Rule)
    → In rule rules
    → registry.loaded (model_name rule) ≡ false
    → revert_loop rules registry ≡ none
unfolding revert_loop revert_rule
revert_loop-unloaded [] registry rule m gone = absurd m
revert_loop-unloaded (r ∷ rules) registry rule (inl e) gone =
    let r_gone : registry.loaded (model_name r) ≡ false =
      ap (λ x. registry.loaded (model_name x)) (sym e) ∙ gone in
    rw r_gone refl
revert_loop-unloaded (r ∷ rules) registry rule (inr m) gone =
    elim (Option-cases (revert_rule r registry)) [
      | inl raised ↦
          ap
            (λ o. o >>= (λ x.
              revert_loop rules x >>= (λ rest. some (rest.0, reverts r registry || rest.1))))
            raised
      | inr (after, e) ↦
          let kept = revert_rule-loaded r registry after e in
          let rest =
            revert_loop-unloaded rules after rule m
              (ap (λ l. l (model_name rule)) (sym kept) ∙ gone) in
          ap
            (λ o. o >>= (λ x. revert_loop rules x >>= (λ d. some (d.0, reverts r registry || d.1))))
            e
          ∙ ap (λ o. o >>= (λ d. some (d.0, reverts r registry || d.1))) rest
    ]

pub set_to_draft-unloaded :
    (table rules : List Rule) (registry : Registry) (rule : Rule)
    → In rule rules
    → registry.loaded (model_name rule) ≡ false
    → set_to_draft table rules registry ≡ none
unfolding set_to_draft revert_methods
set_to_draft-unloaded table rules registry rule m gone =
    rw (revert_loop-unloaded rules registry rule m gone) refl

-- A rule whose model is not loaded any more can neither be set to draft nor deleted, alone or with
-- others: the lookup of the class of its model raises a `KeyError`. `_patch_methods` skips such a
-- rule.
pub unlink-unloaded :
    (table rules : List Rule) (registry : Registry) (rule : Rule)
    → In rule rules
    → registry.loaded (model_name rule) ≡ false
    → (set_to_draft table rules registry ≡ none)
      × (unlink table rules registry ≡ none)
      × (patch_rule rule registry ≡ registry)
unfolding unlink patch_rule
unlink-unloaded table rules registry rule m gone = (
  set_to_draft-unloaded table rules registry rule m gone,
  rw (set_to_draft-unloaded table rules registry rule m gone) refl,
  if_false (is_confirmed rule.state && registry.loaded (model_name rule)) _ _
      (ground (arith, gone)),
)
