-- ===== src/AuditLog/Logs.antt =====
-- `create_logs` (auditlog/models/auditlog_rule.py): the logs of one call of a method.
pub mod Lookup
pub mod Replay
pub mod Complete
pub mod Excluded
pub mod Unchanged
use Prim.Native.String.{String}
use others_addons.Base.{
  ℕ, Bool, true, false, not, ◌||◌, List, [], ◌∷◌, Option, none, some, ◌>>=◌, keys, lookup,
  if◌then◌else◌,
}
use others_addons.AuditLog.Differ.{Value, Values, added, changed}
use others_addons.AuditLog.Lines.{
  Line, LogType, Records, record_of, Models, create_log_line_on_read, create_log_line_on_write,
  create_log_line_on_create,
}

pub data Method : Type 0 where
  create_method : Method
  read_method : Method
  write_method : Method
  unlink_method : Method
  export_data_method : Method

-- What `create_logs` reads of the rule of the model.
pub record LogRule : Type 0 where
  pub fields_to_exclude : List String
  pub capture_record : Bool

abbrev pub excluded_fields : Option LogRule → List String
excluded_fields none = []
excluded_fields (some rule) = rule.fields_to_exclude

abbrev pub captures : Option LogRule → Bool
captures none = false
captures (some rule) = rule.capture_record

-- A row of `auditlog.log`. The log of an export is about several records.
pub record Log : Type 0 where
  pub model_id : ℕ
  pub method : Method
  pub user_id : ℕ
  pub http_request_id : Option ℕ
  pub http_session_id : Option ℕ
  pub log_type : LogType
  pub name : String
  pub res_ids : List ℕ
  pub line_ids : List Line

-- What a call has in common: the user, the request, the model, its entry in the cache of the models
-- and its rule, the method and how to log.
pub record Call : Type 0 where
  pub uid : ℕ
  pub http_request : Option ℕ
  pub http_session : Option ℕ
  pub res_model : String
  pub model_cache : List (String × ℕ)
  pub rule : Option LogRule
  pub method : Method
  pub log_type : LogType

abbrev pub or_empty : Option Values → Values
or_empty none = []
or_empty (some values) = values

-- `records.get(res_id, EMPTY_DICT)`
unfoldable pub get_values : ℕ → Records → Values
get_values res_id records = or_empty (record_of res_id records)

abbrev pub is_unlink : Method → Bool
is_unlink unlink_method = true
is_unlink _ = false

abbrev pub is_export : Method → Bool
is_export export_data_method = true
is_export _ = false

abbrev pub is_empty : List Line → Bool
is_empty [] = true
is_empty (l ∷ lines) = false

module _ (env : Models) where
  -- The lines of the log of one record, by the method.
  unfoldable pub lines_of :
      Method → LogType → Option LogRule → Records → Records → ℕ → Option (List Line)
  lines_of create_method log_type rule old_values new_values res_id =
      let diff = added (get_values res_id new_values) (get_values res_id old_values) in
      create_log_line_on_create env log_type res_id diff new_values (excluded_fields rule)
  lines_of read_method log_type rule old_values new_values res_id =
      create_log_line_on_read env res_id (keys (get_values res_id old_values)) old_values
        (excluded_fields rule)
  lines_of write_method log_type rule old_values new_values res_id =
      let diff = changed (get_values res_id new_values) (get_values res_id old_values) in
      create_log_line_on_write env log_type res_id diff old_values new_values (excluded_fields rule)
  lines_of unlink_method log_type rule old_values new_values res_id =
      if captures rule
      then create_log_line_on_read env res_id (keys (get_values res_id old_values)) old_values
          (excluded_fields rule)
      else some []
  lines_of export_data_method log_type rule old_values new_values res_id = some []

  abbrev pub log_of : Call → ℕ → String → List ℕ → List Line → Log
  log_of call model_id name res_ids lines = record {
    model_id = model_id;
    method = call.method;
    user_id = call.uid;
    http_request_id = call.http_request;
    http_session_id = call.http_session;
    log_type = call.log_type;
    name = name;
    res_ids = res_ids;
    line_ids = lines;
  }

  -- The loop over the records; none for a `KeyError`.
  unfoldable pub record_logs : Call → ℕ → Records → Records → List ℕ → Option (List Log)
  unfolding lines_of
  record_logs call model_id old_values new_values [] = some []
  record_logs call model_id old_values new_values (res_id ∷ res_ids) = do
    lines ← lines_of call.method call.log_type call.rule old_values new_values res_id
    rest ← record_logs call model_id old_values new_values res_ids
    let log = log_of call model_id (env.display_name call.res_model res_id) (res_id ∷ []) lines
    some (if is_unlink call.method || not (is_empty lines) then log ∷ rest else rest)

  unfoldable pub create_logs : Call → Records → Records → List ℕ → Option (List Log)
  unfolding record_logs
  create_logs call old_values new_values res_ids = do
    model_id ← lookup call.res_model call.model_cache
    let exported = log_of call model_id call.res_model res_ids []
    let logs = record_logs call model_id old_values new_values res_ids
    if is_export call.method then some (exported ∷ []) else logs
