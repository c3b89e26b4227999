-- ===== src/AuditLog/Rules/Reverted.antt =====
-- What `set_to_draft` takes away (auditlog/models/auditlog_rule.py).
use Prim.Native.String.{String}
use text.Mathlib.Text.{◌==◌ as str_eq}
use text.Mathlib.TextEquality.{eq_iff}
use others_addons.Base.{
  bind-some, ap, if_true, if_false, ◌≡◌, refl, subst, ◌∙◌, sym, inl, inr, false, ◌&&◌, List, [],
  ◌∷◌, none, some, if◌then◌else◌, arith, Bool-cases, some-injective,
}
use others_addons.AuditLog.Logs.{Method}
use others_addons.AuditLog.Rules.{
  Rule, ModelClass, logs_method, revert_step, through_each, all_methods, above_of, Registry,
  set_class, model_name,
}
use others_addons.AuditLog.Rules.Actions.{
  patch_rule, patches, patch_methods, revert_rule, revert_loop, revert_methods, register_hook,
  write, set_to_draft,
}
use others_addons.AuditLog.Rules.Coherent.{IsCoherent}
use others_addons.AuditLog.Rules.Turns.{through_each-Reverts, all_methods_chosen}

-- A rule that is set to draft: its model is loaded, and the class of the model is the one that the turn
-- of the rule leaves.
set_to_draft-one :
    (table : List Rule) (rule : Rule) (registry : Registry) (done : List Rule × Registry)
    → set_to_draft table (rule ∷ []) registry ≡ some done
    → (cls : ModelClass) × (through_each
          (revert_step rule (above_of registry (model_name rule)))
          all_methods
          (registry.classes (model_name rule))
        ≡ some cls)
      × ((set_class (model_name rule) cls registry).classes ≡ done.1.classes)
unfolding set_to_draft revert_methods revert_loop revert_rule write register_hook patch_methods
    patch_rule patches
set_to_draft-one table rule registry done h =
    let above = above_of registry (model_name rule) in
    let (reverted, e, h2) = bind-some (revert_methods (rule ∷ []) registry) _ done h in
    let (looped, e2, h3) = bind-some (revert_loop (rule ∷ []) registry) _ reverted e in
    let (turned, e3, h4) = bind-some (revert_rule rule registry) _ looped e2 in
    elim (Bool-cases (registry.loaded (model_name rule))) [
      | inr gone ↦ absurd (ground (arith, sym (if_false _ _ _ gone) ∙ e3))
      | inl loaded ↦
          let (cls, e4, h5) =
            bind-some
              (through_each (revert_step rule above) all_methods
                (registry.classes (model_name rule)))
              _ turned (sym (if_true _ _ _ loaded) ∙ e3) in
          (
            cls,
            e4,
            ap (λ r. Registry.classes r) (some-injective _ _ h5)
                ∙ ap (λ d. Registry.classes d.0) (some-injective _ _ h4)
                ∙ ap (λ r. Registry.classes r) (some-injective _ _ h3)
                ∙ ap (λ d. Registry.classes d.1) (some-injective _ _ h2),
          )
    ]

-- When a rule is set to draft and no exception is raised, then of the class of its model the methods
-- that the rule logs lose the patch that is set on the class, if any, whichever rule it is of, and its mark,
-- so that they are those that the class inherits; the other methods of the class, patches among them, and all other
-- classes stay as they were.
pub set_to_draft-Reverts :
    (table : List Rule) (rule : Rule) (registry : Registry) (done : List Rule × Registry)
    → IsCoherent registry
    → set_to_draft table (rule ∷ []) registry ≡ some done
    → (name : String) (m : Method)
    → ((done.1.classes name).own m ≡ (
        if str_eq name (model_name rule) && logs_method rule m
        then none
        else (registry.classes name).own m))
      × ((done.1.classes name).ruled m ≡ (
          if str_eq name (model_name rule) && logs_method rule m
          then false
          else (registry.classes name).ruled m))
unfolding set_class
set_to_draft-Reverts table rule registry done coherent h name m =
    let (cls, turned, all) = set_to_draft-one table rule registry done h in
    subst
      (λ classes.
        ((classes name).own m ≡ (
          if str_eq name (model_name rule) && logs_method rule m
          then none
          else (registry.classes name).own m))
        × ((classes name).ruled m ≡ (
            if str_eq name (model_name rule) && logs_method rule m
            then false
            else (registry.classes name).ruled m)))
      all
      (elim (Bool-cases (str_eq name (model_name rule))) [
        | inl same ↦
            let e = (eq_iff name (model_name rule)).0 same in
            let (own, ruled) =
              through_each-Reverts rule (above_of registry (model_name rule)) all_methods
                (registry.classes (model_name rule)) cls (coherent (model_name rule)) turned m in
            rw same (
              own ∙ (λ i.
                  if all_methods_chosen m i && logs_method rule m
                  then none
                  else (registry.classes (sym e i)).own m),
              ruled ∙ (λ i.
                  if all_methods_chosen m i && logs_method rule m
                  then false
                  else (registry.classes (sym e i)).ruled m),
            )
        | inr other ↦ rw other (refl, refl)
      ])
