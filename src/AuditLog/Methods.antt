-- ===== src/AuditLog/Methods.antt =====
-- The methods that a rule puts in the place of `create`, `read`, `write`, `unlink` and `export_data`
-- of a model: `_make_create` and its sisters (auditlog/models/auditlog_rule.py). The methods they
-- replace are arguments, and so are what reading a record gives and the rest of Odoo.
pub mod Patched
pub mod Transparent
pub mod Unlogged
use Prim.Native.String.{String}
use text.Mathlib.Text.{◌==◌ as str_eq}
use others_addons.Base.{
  ℕ, Bool, true, false, not, ◌&&◌, ◌||◌, List, [], ◌∷◌, ◌++◌, map, Option, none, some, ◌>>=◌, has,
  keep, keys, lookup, contains, if◌then◌else◌,
}
use others_addons.AuditLog.Differ.{Value, Values, unset, same_ids}
use others_addons.AuditLog.Lines.{LogType, full, fast, Records, Models}
use others_addons.AuditLog.Logs.{
  Method, create_method, read_method, write_method, unlink_method, export_data_method, LogRule, Log,
  Call, create_logs,
}

-- A field of the class of a model.
pub record FieldDef : Type 0 where
  pub name : String
  pub compute : Bool
  pub related : Bool
  pub store : Bool

abbrev pub is_logged_field : FieldDef → Bool
is_logged_field f = (not f.compute && not f.related) || f.store

unfoldable pub get_auditlog_fields : List FieldDef → List String
get_auditlog_fields [] = []
get_auditlog_fields (f ∷ fields) =
    let rest = get_auditlog_fields fields in if is_logged_field f then f.name ∷ rest else rest

-- The id of a record: that of a row, or a `NewId` with the row it stands for, if any.
pub data RecordId : Type 0 where
  real_id : ℕ → RecordId
  new_id : Option ℕ → RecordId

-- `records.ids`
unfoldable pub ids_of_records : List RecordId → List ℕ
ids_of_records [] = []
ids_of_records (real_id i ∷ records) = i ∷ ids_of_records records
ids_of_records (new_id (some i) ∷ records) = i ∷ ids_of_records records
ids_of_records (new_id none ∷ records) = ids_of_records records

-- The ids of the records that are rows.
unfoldable pub stored_ids : List RecordId → List ℕ
stored_ids [] = []
stored_ids (real_id i ∷ records) = i ∷ stored_ids records
stored_ids (new_id o ∷ records) = stored_ids records

-- A key of the guard: the name of a model and ids of its records.
abbrev pub Key : Type 0
Key = String × List ℕ

unfoldable pub has_key : Key → List Key → Bool
has_key key [] = false
has_key (model, ids) ((other_model, other_ids) ∷ guard) =
    (str_eq model other_model && same_ids ids other_ids) || has_key (model, ids) guard

-- The user and what auditlog keeps in the context: whether there is a guard, and
-- `auditlog_disabled_read`.
pub record Context : Type 0 where
  pub user : ℕ
  pub guarded : Bool
  pub disabled_read : Bool

-- The database, and the set that is the guard of the context, which the calls share and change.
pub record State (D : Type 0) : Type 0 where
  pub db : D
  pub guard : List Key

-- What the methods know of the rule, its model and the request.
pub record Setup : Type 0 where
  pub model : String
  pub model_fields : List FieldDef
  pub model_cache : List (String × ℕ)
  pub rule : Option LogRule
  pub log_type : LogType
  pub users_to_exclude : List ℕ
  pub http_request : Option ℕ
  pub http_session : Option ℕ

abbrev pub fields_list : Setup → List String
fields_list setup = get_auditlog_fields setup.model_fields

abbrev pub without_reads : Context → Context
without_reads context = record context { disabled_read = true }

abbrev pub call_of : Setup → Context → Method → LogType → Call
call_of setup context method log_type = record {
  uid = context.user;
  http_request = setup.http_request;
  http_session = setup.http_session;
  res_model = setup.model;
  model_cache = setup.model_cache;
  rule = setup.rule;
  method = method;
  log_type = log_type;
}

-- What a method is given and what it gives: none for an exception.
abbrev pub Origin : Type 0 → Type 0 → Type 0
Origin D R = Context → State D → Option (R × State D)

abbrev pub Audited : Type 0 → Type 0 → Type 0
Audited D R = Context → State D → Option (R × State D × List Log)

-- A call with the logs that follow from its result.
abbrev pub with_logs :
    {D R : Type 0}
    → Option (R × State D)
    → (R → State D → Option (List Log))
    → Option (R × State D × List Log)
with_logs none logs_of = none
with_logs (some (result, state)) logs_of = do
  logs ← logs_of result state
  some (result, state, logs)

abbrev pub without_logs : {D R : Type 0} → Option (R × State D) → Option (R × State D × List Log)
without_logs call = with_logs call (λ result state. some [])

-- A call with the `flush_recordset` behind it.
abbrev pub flushed : {D R : Type 0} → (D → Option D) → Option (R × State D) → Option (R × State D)
flushed flush none = none
flushed flush (some (result, state)) = do
  db ← flush state.db
  some (result, record state { db = db })

-- Values as they are given to `create`: an empty recordset stands for `False`.
pub data Given : Type 0 where
  value : Value → Given
  empty_records : Given

abbrev pub to_value : Given → Value
to_value (value v) = v
to_value empty_records = unset

abbrev pub to_values : List (String × Given) → Values
to_values [] = []
to_values ((k, g) ∷ vals) = (k, to_value g) ∷ to_values vals

-- `_update_vals_list`
unfoldable pub update_vals_list : List (List (String × Given)) → List Values
update_vals_list = map to_values

-- `zip(vals_list, new_records, strict=True)`, none if the lengths differ.
unfoldable pub zip_strict : List Values → List ℕ → Option Records
zip_strict [] [] = some []
zip_strict (vals ∷ vals_list) (i ∷ new_ids) = do
  rest ← zip_strict vals_list new_ids
  some ((i, vals) ∷ rest)
zip_strict _ _ = none

-- The values of a write, for each record, and `False` for each of them.
abbrev pub for_each : Values → List ℕ → Records
for_each vals = map (λ i. (i, vals))

unfoldable pub all_unset : Values → Values
all_unset [] = []
all_unset ((k, v) ∷ vals) = (k, unset) ∷ all_unset vals
