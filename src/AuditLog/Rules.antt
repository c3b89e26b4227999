-- ===== src/AuditLog/Rules.antt =====
-- `AuditlogRule` (auditlog/models/auditlog_rule.py): how the rules patch the methods of the classes of
-- the models and take the patches away again.
pub mod Actions
pub mod Sound
pub mod Coherent
pub mod Turns
pub mod Unloaded
pub mod Reverted
pub mod Reached
use Prim.Native.String.{String}
use text.Mathlib.Text.{◌==◌ as str_eq}
use others_addons.Base.{
  ℕ, Bool, true, false, not, ◌&&◌, ◌||◌, List, [], ◌∷◌, Option, none, some, ◌>>=◌, ◌==◌,
  if◌then◌else◌,
}
use others_addons.AuditLog.Lines.{LogType}
use others_addons.AuditLog.Logs.{
  Method, create_method, read_method, write_method, unlink_method, export_data_method,
}

pub data RuleState : Type 0 where
  draft : RuleState
  confirmed : RuleState

abbrev pub is_confirmed : RuleState → Bool
is_confirmed draft = false
is_confirmed confirmed = true

-- A row of `ir.model`.
pub record ModelRow : Type 0 where
  pub model_id : ℕ
  pub model : String

-- The technical name of the model is kept when the row of the model is deleted.
pub record Rule : Type 0 where
  pub id : ℕ
  pub state : RuleState
  pub model_row : Option ModelRow
  pub model_model : String
  pub log_create : Bool
  pub log_read : Bool
  pub log_write : Bool
  pub log_unlink : Bool
  pub log_export_data : Bool
  pub log_type : LogType
  pub action_id : Option ℕ

-- `rule.model_id.model or rule.model_model`
abbrev model_or : Option ModelRow → String → String
model_or none name = name
model_or (some row) name = row.model

abbrev pub model_name : Rule → String
model_name rule = model_or rule.model_row rule.model_model

-- The flag of a method.
abbrev pub logs_method : Rule → Method → Bool
logs_method rule create_method = rule.log_create
logs_method rule read_method = rule.log_read
logs_method rule write_method = rule.log_write
logs_method rule unlink_method = rule.log_unlink
logs_method rule export_data_method = rule.log_export_data

abbrev pub all_methods : List Method
all_methods = create_method ∷ read_method ∷ write_method ∷ unlink_method ∷ export_data_method ∷ []

abbrev method_number : Method → ℕ
method_number create_method = 0
method_number read_method = 1
method_number write_method = 2
method_number unlink_method = 3
method_number export_data_method = 4

abbrev pub same_method : Method → Method → Bool
same_method m n = method_number m == method_number n

-- What a method of a class is: what it inherits, or the patch of a rule with its `origin`.
pub data Impl : Type 0 where
  inherited : Impl
  patched : ℕ → LogType → Impl → Impl

-- The class of a model: the methods that are set on it, and whether the attribute
-- `auditlog_ruled_…` is. The classes that it inherits from have their own.
pub record ModelClass : Type 0 where
  pub own : Method → Option Impl
  pub ruled : Method → Bool

-- What a class inherits from the classes of other models: the marks and the methods.
pub record Above : Type 0 where
  pub marked : Method → Bool
  pub impl : Method → Impl

abbrev pub impl_or : Option Impl → Impl → Impl
impl_or none impl = impl
impl_or (some own) impl = own

-- `getattr(model_class, method)`
abbrev pub impl_of : Above → ModelClass → Method → Impl
impl_of above cls m = impl_or (cls.own m) (above.impl m)

-- `hasattr(model_model, check_attr)`
abbrev pub is_marked : Above → ModelClass → Method → Bool
is_marked above cls m = cls.ruled m || above.marked m

abbrev pub has_origin : Impl → Bool
has_origin inherited = false
has_origin (patched rule log_type origin) = true

unfoldable pub patch_method : Rule → Above → Method → ModelClass → ModelClass
patch_method rule above m cls = record {
  own = λ n.
      if same_method n m
      then some (patched rule.id rule.log_type (impl_of above cls m))
      else cls.own n;
  ruled = λ n. if same_method n m then true else cls.ruled n;
}

-- One of the five tests of `_patch_methods`.
unfoldable pub patch_step : Rule → Above → Method → ModelClass → ModelClass
unfolding patch_method
patch_step rule above m cls =
    if logs_method rule m && not (is_marked above cls m) then patch_method rule above m cls else cls

unfoldable pub unpatch_method : Method → ModelClass → ModelClass
unpatch_method m cls = record {
  own = λ n. if same_method n m then none else cls.own n;
  ruled = λ n. if same_method n m then false else cls.ruled n;
}

-- The two `delattr`: an attribute that the class has not itself is an `AttributeError`.
unfoldable pub delete_patch : Method → ModelClass → Option ModelClass
unfolding unpatch_method
delete_patch m cls = elim (cls.own m) [
  | none ↦ none
  | some impl ↦ if cls.ruled m then some (unpatch_method m cls) else none
]

unfoldable pub revert_step : Rule → Above → Method → ModelClass → Option ModelClass
unfolding delete_patch
revert_step rule above m cls =
    if logs_method rule m && has_origin (impl_of above cls m) then delete_patch m cls else some cls

-- The loop over the methods of a class.
abbrev pub through_each :
    (Method → ModelClass → Option ModelClass) → List Method → ModelClass → Option ModelClass
through_each step [] cls = some cls
through_each step (m ∷ methods) cls = step m cls >>= through_each step methods

abbrev pub through : (Method → ModelClass → ModelClass) → List Method → ModelClass → ModelClass
through step [] cls = cls
through step (m ∷ methods) cls = through step methods (step m cls)

-- Whether one of the tests is met: `updated`.
abbrev pub any_step : (Method → ModelClass → Bool) → List Method → ModelClass → Bool
any_step test [] cls = false
any_step test (m ∷ methods) cls = test m cls || any_step test methods cls

-- The registry: the classes of the models, the models whose classes each inherits from, nearest first, which of the models are loaded, the cache of the ids of
-- the models, and whether the other workers are told to reload.
pub record Registry : Type 0 where
  pub classes : String → ModelClass
  pub bases : String → List String
  pub loaded : String → Bool
  pub model_cache : List (String × ℕ)
  pub invalidated : Bool

unfoldable pub set_class : String → ModelClass → Registry → Registry
set_class model cls registry = record registry {
  classes = λ name. if str_eq name model then cls else registry.classes name;
}

abbrev pub cache_model : Option ModelRow → List (String × ℕ) → List (String × ℕ)
cache_model none cache = cache
cache_model (some row) cache = (row.model, row.model_id) ∷ cache

abbrev pub marked_in : (String → ModelClass) → List String → Method → Bool
marked_in classes [] m = false
marked_in classes (name ∷ names) m = (classes name).ruled m || marked_in classes names m

abbrev pub impl_in : (String → ModelClass) → List String → Method → Impl
impl_in classes [] m = inherited
impl_in classes (name ∷ names) m = impl_or ((classes name).own m) (impl_in classes names m)

abbrev pub above_of : Registry → String → Above
above_of registry model = record {
  marked = marked_in registry.classes (registry.bases model);
  impl = impl_in registry.classes (registry.bases model);
}
