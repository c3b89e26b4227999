-- ===== src/AuditLog/Tests/Rules.antt =====
-- A rule that is confirmed and set to draft (auditlog/models/auditlog_rule.py).

use text.Mathlib.Text.{◌==◌ as str_eq}
use others_addons.Base.{
  ◌≡◌, refl, inl, inr, true, false, ◌||◌, if◌then◌else◌, List, [], ◌∷◌, none, some,
}
use others_addons.AuditLog.Lines.{full}
use others_addons.AuditLog.Logs.{write_method}
use others_addons.AuditLog.Rules.{
  draft, confirmed, Rule, inherited, patched, Registry, patch_step, revert_step,
}
use others_addons.AuditLog.Rules.Actions.{
  set_to_draft, unlink, register_hook, patch_rule, write, patch_methods, revert_methods,
  revert_loop, revert_rule,
}
use others_addons.AuditLog.Rules.Coherent.{IsCoherent}
use others_addons.AuditLog.Rules.Reached.{start, next, Step, Reach-IsCoherent}
use others_addons.AuditLog.Rules.Reverted.{set_to_draft-Reverts}
use others_addons.AuditLog.Rules.Unloaded.{unlink-unloaded}

abbrev rule : Rule
rule = record {
  id = 3;
  state = draft;
  model_row = some (record { model_id = 7; model = "partner" });
  model_model = "partner";
  log_create = false;
  log_read = false;
  log_write = true;
  log_unlink = true;
  log_export_data = false;
  log_type = full;
  action_id = none;
}

abbrev gone_rule : Rule
gone_rule = record rule { model_row = none; model_model = "gone" }

abbrev untouched : Registry
untouched = record {
  classes = λ name. record { own = λ m. none; ruled = λ m. false };
  bases = λ name. if str_eq name "customer" then "partner" ∷ [] else [];
  loaded = λ name. str_eq name "partner" || str_eq name "customer";
  model_cache = [];
  invalidated = false;
}

untouched-IsCoherent : IsCoherent untouched
untouched-IsCoherent name m = inr (refl, refl)

abbrev confirmed_registry : Registry
confirmed_registry = (register_hook [] (record rule { state = confirmed } ∷ []) untouched).0

confirmed_registry-IsCoherent : IsCoherent confirmed_registry
confirmed_registry-IsCoherent = Reach-IsCoherent untouched confirmed_registry untouched-IsCoherent (
    next untouched confirmed_registry start
      (Step.hooks [] (record rule { state = confirmed } ∷ [])))

Reach-IsCoherent_example : IsCoherent confirmed_registry
Reach-IsCoherent_example = Reach-IsCoherent untouched confirmed_registry untouched-IsCoherent (
    next untouched confirmed_registry start
      (Step.hooks [] (record rule { state = confirmed } ∷ [])))

-- Its method to write is patched.
confirmed-write :
    (confirmed_registry.classes "partner").own write_method ≡ some (patched 3 full inherited)
unfolding register_hook patch_methods patch_rule patch_step
confirmed-write = refl

abbrev drafted : List Rule × Registry
drafted =
    elim (set_to_draft [] (record rule { state = confirmed } ∷ []) confirmed_registry)
      as (λ x. List Rule × Registry) [ none ↦ ([], untouched) | some done ↦ done ]

set_to_draft-Reverts_example :
    ((drafted.1.classes "partner").own write_method ≡ none)
    × ((drafted.1.classes "partner").ruled write_method ≡ false)
unfolding register_hook patch_methods patch_rule set_to_draft revert_methods revert_loop revert_rule
    write revert_step patch_step
set_to_draft-Reverts_example =
    set_to_draft-Reverts [] (record rule { state = confirmed }) confirmed_registry drafted
      confirmed_registry-IsCoherent refl "partner" write_method

unlink-unloaded_example :
    (set_to_draft [] (rule ∷ gone_rule ∷ []) confirmed_registry ≡ none)
    × (unlink [] (rule ∷ gone_rule ∷ []) confirmed_registry ≡ none)
    × (patch_rule gone_rule confirmed_registry ≡ confirmed_registry)
unfolding register_hook patch_methods patch_rule
unlink-unloaded_example =
    unlink-unloaded [] (rule ∷ gone_rule ∷ []) confirmed_registry gone_rule (inr (inl refl)) refl

-- A model that inherits from one whose class is patched: its class is not patched, but set to draft
-- its rule meets the patch that it inherits, which it cannot delete.
abbrev customer_rule : Rule
customer_rule = record rule {
  id = 4;
  state = confirmed;
  model_row = some (record { model_id = 8; model = "customer" });
  model_model = "customer";
}

inherited_patch :
    ((patch_rule customer_rule confirmed_registry).classes "customer").own write_method ≡ none
unfolding register_hook patch_methods patch_rule patch_step
inherited_patch = refl

inherited_delete :
    set_to_draft [] (customer_rule ∷ []) (patch_rule customer_rule confirmed_registry) ≡ none
unfolding register_hook patch_methods patch_rule patch_step set_to_draft revert_methods revert_loop
    revert_rule revert_step
inherited_delete = refl
