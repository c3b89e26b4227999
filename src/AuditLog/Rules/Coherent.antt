-- ===== src/AuditLog/Rules/Coherent.antt =====
-- The operations on the rules keep the classes of the models sound (auditlog/models/auditlog_rule.py).
use Prim.Native.String.{String}
use text.Mathlib.Text.{◌==◌ as str_eq}
use others_addons.Base.{
  bind-some, ℕ, ◌≡◌, refl, ap, false, ◌∙◌, sym, inl, inr, Bool, ◌&&◌, List, [], ◌∷◌, map, some,
  arith, Bool-cases, suc, if_true, if_false, some-injective, subst,
}
use others_addons.AuditLog.Logs.{Method}
use others_addons.AuditLog.Rules.{
  Rule, inherited, ModelClass, impl_or, marked_in, impl_in, above_of, through_each, patch_step,
  revert_step, all_methods, Registry, set_class, model_name, is_confirmed, cache_model,
}
use others_addons.AuditLog.Rules.Actions.{
  patch_rule, patch_methods, revert_rule, revert_loop, revert_methods, register_hook,
  confirmed_rules, NewRule, new_rules, register_each, create, RuleVals, write, to_draft,
  to_confirmed, set_to_draft, set_to_confirmed, unlink, check_model, with_model,
}
use others_addons.AuditLog.Rules.Sound.{
  IsSound, IsAbove, patch_step-IsSound, through-IsSound, through_each-IsSound,
}

abbrev pub IsCoherent : Registry → Type 0
IsCoherent registry = (name : String) → IsSound (registry.classes name)

-- Of coherent classes those that are not marked have no patch to inherit.
marked_in-inherited :
    (classes : String → ModelClass)
    → ((name : String) → IsSound (classes name))
    → (names : List String) (m : Method) → marked_in classes names m ≡ false
    → impl_in classes names m ≡ inherited
marked_in-inherited classes sound [] m clear = refl
marked_in-inherited classes sound (name ∷ names) m clear = elim (sound name m) [
  | inl (marked, i, t, e) ↦ absurd (ground (arith, clear, marked))
  | inr (unmarked, e) ↦
      ap (λ o. impl_or o (impl_in classes names m)) e
      ∙ marked_in-inherited classes sound names m (ground (arith, clear))
]

above_of-IsAbove :
    (registry : Registry) (model : String) → IsCoherent registry → IsAbove (above_of registry model)
above_of-IsAbove registry model coherent m clear =
    marked_in-inherited registry.classes coherent (registry.bases model) m clear

set_class-IsCoherent :
    (model : String) (cls : ModelClass) (registry : Registry)
    → IsSound cls
    → IsCoherent registry
    → IsCoherent (set_class model cls registry)
unfolding set_class
set_class-IsCoherent model cls registry sound coherent name =
    elim (Bool-cases (str_eq name model)) [
      | inl same ↦ subst IsSound (sym (if_true _ _ _ same)) sound
      | inr other ↦ subst IsSound (sym (if_false _ _ _ other)) (coherent name)
    ]

patch_rule-IsCoherent :
    (rule : Rule) (registry : Registry)
    → IsCoherent registry
    → IsCoherent (patch_rule rule registry)
unfolding patch_rule
patch_rule-IsCoherent rule registry coherent =
    elim (Bool-cases (is_confirmed rule.state && registry.loaded (model_name rule))) [
      | inr skipped ↦ subst IsCoherent (sym (if_false _ _ _ skipped)) coherent
      | inl patches ↦ subst IsCoherent (sym (if_true _ _ _ patches)) (
          set_class-IsCoherent (model_name rule) _
            (record registry { model_cache = cache_model rule.model_row registry.model_cache })
            (through-IsSound (patch_step rule (above_of registry (model_name rule)))
              (patch_step-IsSound rule (above_of registry (model_name rule))
                (above_of-IsAbove registry (model_name rule) coherent))
              all_methods _ (coherent _))
            coherent)
    ]

patch_methods-IsCoherent :
    (rules : List Rule) (registry : Registry)
    → IsCoherent registry
    → IsCoherent (patch_methods rules registry).0
unfolding patch_methods
patch_methods-IsCoherent [] registry coherent = coherent
patch_methods-IsCoherent (rule ∷ rules) registry coherent =
    patch_methods-IsCoherent rules (patch_rule rule registry)
      (patch_rule-IsCoherent rule registry coherent)

pub register_hook-IsCoherent :
    (table rules : List Rule) (registry : Registry)
    → IsCoherent registry
    → IsCoherent (register_hook table rules registry).0
unfolding register_hook
register_hook-IsCoherent table [] registry coherent =
    patch_methods-IsCoherent (confirmed_rules table) registry coherent
register_hook-IsCoherent table (rule ∷ rules) registry coherent =
    patch_methods-IsCoherent (rule ∷ rules) registry coherent

revert_rule-IsCoherent :
    (rule : Rule) (registry after : Registry)
    → IsCoherent registry
    → revert_rule rule registry ≡ some after
    → IsCoherent after
unfolding revert_rule
revert_rule-IsCoherent rule registry after coherent h =
    elim (Bool-cases (registry.loaded (model_name rule))) [
      | inr gone ↦ absurd (ground (arith, sym (if_false _ _ _ gone) ∙ h))
      | inl loaded ↦
          let above = above_of registry (model_name rule) in
          let (cls, e, h2) =
            bind-some
              (through_each (revert_step rule above) all_methods
                (registry.classes (model_name rule)))
              _ after (sym (if_true _ _ _ loaded) ∙ h) in
          subst IsCoherent (some-injective _ _ h2) (
            set_class-IsCoherent (model_name rule) cls registry
              (through_each-IsSound rule above all_methods _ cls (coherent _) e) coherent)
    ]

revert_loop-IsCoherent :
    (rules : List Rule) (registry : Registry) (done : Registry × Bool)
    → IsCoherent registry
    → revert_loop rules registry ≡ some done
    → IsCoherent done.0
unfolding revert_loop
revert_loop-IsCoherent [] registry done coherent h =
    subst (λ d. IsCoherent d.0) (some-injective _ _ h) coherent
revert_loop-IsCoherent (rule ∷ rules) registry done coherent h =
    let (after, e, h2) = bind-some (revert_rule rule registry) _ done h in
    let (rest, f, h3) = bind-some (revert_loop rules after) _ done h2 in
    subst (λ d. IsCoherent d.0) (some-injective _ _ h3)
      (revert_loop-IsCoherent rules after rest
        (revert_rule-IsCoherent rule registry after coherent e) f)

revert_methods-IsCoherent :
    (rules : List Rule) (registry after : Registry)
    → IsCoherent registry
    → revert_methods rules registry ≡ some after
    → IsCoherent after
unfolding revert_methods
revert_methods-IsCoherent rules registry after coherent h =
    let (done, e, h2) = bind-some (revert_loop rules registry) _ after h in
    subst IsCoherent (some-injective _ _ h2) (revert_loop-IsCoherent rules registry done coherent e)

register_each-IsCoherent :
    (rules : List Rule) (registry : Registry)
    → IsCoherent registry
    → IsCoherent (register_each rules registry).0
unfolding register_each
register_each-IsCoherent [] registry coherent = coherent
register_each-IsCoherent (rule ∷ rules) registry coherent =
    register_each-IsCoherent rules (patch_methods (rule ∷ []) registry).0
      (patch_methods-IsCoherent (rule ∷ []) registry coherent)

pub create-IsCoherent :
    (vals_list : List NewRule) (registry : Registry) (done : List Rule × Registry)
    → IsCoherent registry
    → create vals_list registry ≡ some done
    → IsCoherent done.1
unfolding create
create-IsCoherent vals_list registry done coherent h =
    let (created, e, h2) = bind-some (new_rules vals_list) _ done h in
    subst (λ d. IsCoherent d.1) (some-injective _ _ h2)
      (register_each-IsCoherent created registry coherent)

pub write-IsCoherent :
    (table : List Rule) (vals : RuleVals) (rules : List Rule) (registry : Registry)
    (done : List Rule × Registry)
    → IsCoherent registry
    → write table vals rules registry ≡ some done
    → IsCoherent done.1
unfolding write
write-IsCoherent table vals rules registry done coherent h =
    let (row, e, h2) = bind-some (check_model vals.new_model) _ done h in
    subst (λ d. IsCoherent d.1) (some-injective _ _ h2)
      (register_hook-IsCoherent table (map (λ r. with_model row (vals.change r)) rules) registry
        coherent)

pub set_to_draft-IsCoherent :
    (table rules : List Rule) (registry : Registry) (done : List Rule × Registry)
    → IsCoherent registry
    → set_to_draft table rules registry ≡ some done
    → IsCoherent done.1
unfolding set_to_draft
set_to_draft-IsCoherent table rules registry done coherent h =
    let (reverted, e, h2) = bind-some (revert_methods rules registry) _ done h in
    write-IsCoherent table to_draft rules reverted done
      (revert_methods-IsCoherent rules registry reverted coherent e) h2

pub set_to_confirmed-IsCoherent :
    (action : ℕ) (table rules : List Rule) (registry : Registry) (done : List Rule × Registry)
    → IsCoherent registry
    → set_to_confirmed action table rules registry ≡ some done
    → IsCoherent done.1
unfolding set_to_confirmed
set_to_confirmed-IsCoherent action table [] registry done coherent h =
    subst (λ d. IsCoherent d.1) (some-injective _ _ h) coherent
set_to_confirmed-IsCoherent action table (rule ∷ rules) registry done coherent h =
    let (first, e, h2) =
      bind-some (write table (to_confirmed action) (rule ∷ []) registry) _ done h in
    let (rest, f, h3) = bind-some (set_to_confirmed (suc action) table rules first.1) _ done h2 in
    let kept = write-IsCoherent table (to_confirmed action) (rule ∷ []) registry first coherent e in
    subst (λ d. IsCoherent d.1) (some-injective _ _ h3)
      (set_to_confirmed-IsCoherent (suc action) table rules first.1 rest kept f)

pub unlink-IsCoherent :
    (table rules : List Rule) (registry after : Registry)
    → IsCoherent registry
    → unlink table rules registry ≡ some after
    → IsCoherent after
unfolding unlink
unlink-IsCoherent table rules registry after coherent h =
    let (done, e, h2) = bind-some (set_to_draft table rules registry) _ after h in
    subst IsCoherent (some-injective _ _ h2)
      (set_to_draft-IsCoherent table rules registry done coherent e)
