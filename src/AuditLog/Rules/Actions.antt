-- ===== src/AuditLog/Rules/Actions.antt =====
-- The operations on the rules: `_register_hook`, `_patch_methods`, `_revert_methods`, `create`, `write`,
-- `unlink`, `set_to_confirmed` and `set_to_draft` (auditlog/models/auditlog_rule.py).

use others_addons.Base.{
  ℕ, Bool, false, not, ◌&&◌, ◌||◌, List, [], ◌∷◌, ◌++◌, map, Option, none, some, ◌>>=◌, suc,
  if◌then◌else◌,
}
use others_addons.AuditLog.Rules.{
  draft, confirmed, is_confirmed, ModelRow, Rule, model_name, logs_method, all_methods, has_origin,
  patch_step, revert_step, through, through_each, any_step, above_of, is_marked, impl_of, Registry,
  set_class, cache_model,
}

-- The turn of a rule in the loop of `_patch_methods`.
unfoldable pub patch_rule : Rule → Registry → Registry
unfolding set_class
patch_rule rule registry =
    let model = model_name rule in
    let cls =
      through (patch_step rule (above_of registry model)) all_methods (registry.classes model) in
    if is_confirmed rule.state && registry.loaded model
    then set_class model cls
        (record registry { model_cache = cache_model rule.model_row registry.model_cache })
    else registry

-- Whether that turn patches a method.
unfoldable pub patches : Rule → Registry → Bool
patches rule registry =
    let model = model_name rule in
    is_confirmed rule.state
    && registry.loaded model
    && any_step (λ m cls. logs_method rule m && not (is_marked (above_of registry model) cls m))
        all_methods (registry.classes model)

-- `_patch_methods`, with `updated`.
unfoldable pub patch_methods : List Rule → Registry → Registry × Bool
patch_methods [] registry = (registry, false)
patch_methods (rule ∷ rules) registry =
    let (after, updated) = patch_methods rules (patch_rule rule registry) in
    (after, patches rule registry || updated)

abbrev pub update_registry : Bool → Registry → Registry
update_registry updated registry = record registry { invalidated = registry.invalidated || updated }

-- The turn of a rule in the loop of `_revert_methods`: a model that is not loaded is a `KeyError`.
unfoldable pub revert_rule : Rule → Registry → Option Registry
unfolding set_class
revert_rule rule registry =
    let model = model_name rule in
    let above = above_of registry model in
    let reverted = through_each (revert_step rule above) all_methods (registry.classes model) in
    if registry.loaded model
    then (reverted >>= (λ cls. some (set_class model cls registry)))
    else none

unfoldable pub reverts : Rule → Registry → Bool
reverts rule registry =
    let model = model_name rule in
    let above = above_of registry model in
    any_step (λ m cls. logs_method rule m && has_origin (impl_of above cls m)) all_methods
      (registry.classes model)

unfoldable pub revert_loop : List Rule → Registry → Option (Registry × Bool)
revert_loop [] registry = some (registry, false)
revert_loop (rule ∷ rules) registry = do
  reverted ← revert_rule rule registry
  rest ← revert_loop rules reverted
  some (rest.0, reverts rule registry || rest.1)

unfoldable pub revert_methods : List Rule → Registry → Option Registry
revert_methods rules registry = do
  done ← revert_loop rules registry
  some (update_registry done.1 done.0)

-- `_register_hook` on some rules, or on none for all that are confirmed.
unfoldable pub confirmed_rules : List Rule → List Rule
confirmed_rules [] = []
confirmed_rules (rule ∷ table) =
    let rest = confirmed_rules table in if is_confirmed rule.state then rule ∷ rest else rest

unfoldable pub register_hook : List Rule → List Rule → Registry → Registry × Bool
register_hook table [] registry = patch_methods (confirmed_rules table) registry
register_hook table (rule ∷ rules) registry = patch_methods (rule ∷ rules) registry

-- The values of a rule that is created: `model_id` may be missing or empty.
pub record NewRule : Type 0 where
  pub given_model : Option ModelRow
  pub make : ModelRow → Rule

-- The check of the values of `create`, none for a `UserError`.
unfoldable pub new_rules : List NewRule → Option (List Rule)
new_rules [] = some []
new_rules (vals ∷ vals_list) = do
  row ← vals.given_model
  rest ← new_rules vals_list
  some (vals.make row ∷ rest)

-- `[record._register_hook() for record in new_records]`
unfoldable pub register_each : List Rule → Registry → Registry × Bool
register_each [] registry = (registry, false)
register_each (rule ∷ rules) registry =
    let (after, updated) = patch_methods (rule ∷ []) registry in
    let (last, more) = register_each rules after in (last, updated || more)

unfoldable pub create : List NewRule → Registry → Option (List Rule × Registry)
create vals_list registry = do
  created ← new_rules vals_list
  let done = register_each created registry
  some (created, update_registry done.1 done.0)

-- The values of a write: the model, if it is among them, which must not be empty, and the others.
pub record RuleVals : Type 0 where
  pub new_model : Option (Option ModelRow)
  pub change : Rule → Rule

abbrev pub with_model : Option ModelRow → Rule → Rule
with_model none rule = rule
with_model (some row) rule = record rule { model_row = some row; model_model = row.model }

abbrev pub check_model : Option (Option ModelRow) → Option (Option ModelRow)
check_model none = some none
check_model (some none) = none
check_model (some (some row)) = some (some row)

-- `write` on some rules, where the table has them as they are before it.
unfoldable pub write : List Rule → RuleVals → List Rule → Registry → Option (List Rule × Registry)
write table vals rules registry = do
  row ← check_model vals.new_model
  let written = map (λ rule. with_model row (vals.change rule)) rules
  let done = register_hook table written registry
  some (written, update_registry done.1 done.0)

-- Back to draft: the removal of the shortcut to the logs empties `action_id`.
abbrev pub to_draft : RuleVals
to_draft = record { new_model = none; change = λ r. record r { state = draft; action_id = none } }

abbrev pub to_confirmed : ℕ → RuleVals
to_confirmed action = record {
  new_model = none;
  change = λ r. record r { state = confirmed; action_id = some action };
}

unfoldable pub set_to_draft : List Rule → List Rule → Registry → Option (List Rule × Registry)
set_to_draft table rules registry = do
  reverted ← revert_methods rules registry
  write table to_draft rules reverted

-- The shortcuts get the ids that the table of the actions gives them.
unfoldable pub set_to_confirmed :
    ℕ → List Rule → List Rule → Registry → Option (List Rule × Registry)
set_to_confirmed next_action table [] registry = some ([], registry)
set_to_confirmed next_action table (rule ∷ rules) registry = do
  done ← write table (to_confirmed next_action) (rule ∷ []) registry
  rest ← set_to_confirmed (suc next_action) table rules done.1
  some (done.0 ++ rest.0, rest.1)

-- The rules are set to draft, then the rows are deleted.
unfoldable pub unlink : List Rule → List Rule → Registry → Option Registry
unlink table rules registry = do done ← set_to_draft table rules registry; some done.1
