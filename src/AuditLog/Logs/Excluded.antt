-- ===== src/AuditLog/Logs/Excluded.antt =====
-- What `create_logs` never logs (auditlog/models/auditlog_rule.py).
use Prim.Native.String.{String}
use others_addons.Base.{
  bind-some, ℕ, ◌≡◌, refl, subst, inl, inr, true, List, [], ◌∷◌, ◌++◌, Option, none, some, has,
  keys, lookup, contains, arith, Bool-cases,
}
use others_addons.AuditLog.Lines.Prepared.{
  prepare_on_read-keeps, prepare_on_write-keeps, prepare_on_create-keeps,
}
use others_addons.AuditLog.Lines.{
  Field, Line, LogType, Records, Models, log_lines, fields_blacklist, prepare_on_read,
  prepare_on_write, prepare_on_create, create_log_line_on_read, create_log_line_on_write,
  create_log_line_on_create,
}
use others_addons.AuditLog.Logs.{
  Method, create_method, read_method, write_method, unlink_method, export_data_method, LogRule,
  is_export, excluded_fields, captures, Log, Call, get_values, lines_of, log_of, record_logs,
  create_logs,
}
use others_addons.AuditLog.Logs.Lookup.{IsFieldTable, KeepsId, line_for, line_for-log_lines}
use others_addons.AuditLog.Logs.Replay.{is_about, lines_about, lines_about-record_logs}
use others_addons.AuditLog.Logs.Complete.{lines_of-returns}

module _ (env : Models) (table : IsFieldTable env) where
  log_lines-excludes :
      (prepare : Field → Option Line)
      → KeepsId prepare
      → (k : String) (f : Field) → env.get_field k ≡ some f
      → (names excluded : List String) → has k excluded ≡ true
      → (lines : List Line) → log_lines env prepare names excluded ≡ some lines
      → line_for f.id lines ≡ none
  log_lines-excludes prepare keeps k f known names excluded out lines made =
      ground
        (arith, line_for-log_lines env table prepare keeps k f known names excluded lines made, out)

  module _ (k : String) (f : Field) (known : env.get_field k ≡ some f) where
    lines_of-excludes :
        (method : Method) (log_type : LogType) (rule : Option LogRule) (past values : Records)
        (res_id : ℕ)
        → has k (excluded_fields rule ++ fields_blacklist) ≡ true
        → (lines : List Line) → lines_of env method log_type rule past values res_id ≡ some lines
        → line_for f.id lines ≡ none
    unfolding lines_of create_log_line_on_read create_log_line_on_write create_log_line_on_create
        line_for
    lines_of-excludes create_method log_type rule past values res_id out lines made =
        log_lines-excludes (prepare_on_create env log_type res_id values)
          (prepare_on_create-keeps env log_type res_id values) k f known _ _ out lines made
    lines_of-excludes read_method log_type rule past values res_id out lines made =
        log_lines-excludes (prepare_on_read env res_id past) (prepare_on_read-keeps env res_id past)
          k f known _ _ out lines made
    lines_of-excludes write_method log_type rule past values res_id out lines made =
        log_lines-excludes (prepare_on_write env log_type res_id past values)
          (prepare_on_write-keeps env log_type res_id past values) k f known _ _ out lines made
    lines_of-excludes unlink_method log_type rule past values res_id out lines made =
        elim (Bool-cases (captures rule)) [
          | inl captured ↦
              log_lines-excludes (prepare_on_read env res_id past)
                (prepare_on_read-keeps env res_id past) k f known (keys (get_values res_id past))
                (excluded_fields rule ++ fields_blacklist) out lines
                (ground (arith, made, captured))
          | inr skipped ↦
              let empty : [] ≡ lines = ground (arith, made, skipped) in
              subst (λ l. line_for f.id l ≡ none) empty refl
        ]
    lines_of-excludes export_data_method log_type rule past values res_id out lines made =
        let empty : [] ≡ lines = ground (arith, made) in
        subst (λ l. line_for f.id l ≡ none) empty refl

    -- A field that the rule of the model excludes, or that is in the fixed list of the fields that are
    -- never logged, has no line in the logs of a call, whatever the method, the record and the
    -- values.
    pub create_logs-excludes :
        (call : Call) (past values : Records) (res_ids : List ℕ) (logs : List Log)
        → has k (excluded_fields call.rule ++ fields_blacklist) ≡ true
        → create_logs env call past values res_ids ≡ some logs
        → (res_id : ℕ) → line_for f.id (lines_about res_id logs) ≡ none
    unfolding create_logs lines_about line_for
    create_logs-excludes call past values res_ids logs out h res_id =
        let (model_id, cached, h2) = bind-some (lookup call.res_model call.model_cache) _ logs h in
        elim (Bool-cases (is_export call.method)) [
          | inl exports ↦
              let exported = log_of env call model_id call.res_model res_ids [] in
              let one : (exported ∷ []) ≡ logs = ground (arith, h2, exports) in
              subst (λ l. line_for f.id (lines_about res_id l) ≡ none) one
                (elim (Bool-cases (is_about res_id res_ids)) [
                  | inl about ↦ rw about refl
                  | inr apart ↦ rw apart refl
                ])
          | inr other ↦
              let (lines, made) =
                lines_of-returns env table call.method call.log_type call.rule past values res_id in
              let h3 : record_logs env call model_id past values res_ids ≡ some logs =
                ground (arith, h2, other) in
              let all =
                lines_about-record_logs env call model_id past values res_ids logs h3 res_id lines
                  made in
              let none_here =
                lines_of-excludes call.method call.log_type call.rule past values res_id out lines
                  made in
              elim (Bool-cases (contains res_id res_ids)) [
                | inl among ↦ rw all (rw among none_here)
                | inr apart ↦ rw all (rw apart refl)
              ]
        ]
