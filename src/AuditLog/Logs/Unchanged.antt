-- ===== src/AuditLog/Logs/Unchanged.antt =====
-- A field that a write leaves as it was has no line (auditlog/models/auditlog_rule.py).
use Prim.Native.String.{String}
use others_addons.Base.{
  ℕ, ◌≡◌, ap, ◌∙◌, sym, true, false, List, ◌++◌, none, some, has, lookup, contains, arith,
}
use others_addons.AuditLog.Differ.{Value, changed}
use others_addons.AuditLog.Differ.Partition.{has-changed, same_value_refl}
use others_addons.AuditLog.Lines.{
  Field, Records, value_at, Models, fields_blacklist, prepare_on_write, create_log_line_on_write,
}
use others_addons.AuditLog.Lines.Prepared.{prepare_on_write-keeps}
use others_addons.AuditLog.Logs.{
  write_method, excluded_fields, Log, Call, get_values, lines_of, create_logs,
}
use others_addons.AuditLog.Logs.Lookup.{IsFieldTable, line_for, line_for-log_lines}
use others_addons.AuditLog.Logs.Complete.{value_at-get_values, lines_of-returns}
use others_addons.AuditLog.Logs.Replay.{lines_about, create_logs-lines}

module _ (env : Models) (table : IsFieldTable env) where
  pub create_logs-unchanged :
      (call : Call)
      → call.method ≡ write_method
      → (past values : Records) (res_ids : List ℕ) (logs : List Log)
      → create_logs env call past values res_ids ≡ some logs
      → (res_id : ℕ) → contains res_id res_ids ≡ true
      → (k : String) (f : Field) → env.get_field k ≡ some f
      → (v : Value) → value_at res_id k past ≡ some v
      → value_at res_id k values ≡ some v
      → line_for f.id (lines_about res_id logs) ≡ none
  unfolding lines_of create_log_line_on_write
  create_logs-unchanged call writes past values res_ids logs h res_id among k f known v e d =
      let current = get_values res_id values in
      let old = get_values res_id past in
      let ev : lookup k old ≡ some v = sym (value_at-get_values res_id k past) ∙ e in
      let ew : lookup k current ≡ some v = sym (value_at-get_values res_id k values) ∙ d in
      let (lines, made) =
        lines_of-returns env table call.method call.log_type call.rule past values res_id in
      let all : lines_about res_id logs ≡ lines =
        create_logs-lines env call past values res_ids logs (ground (arith, writes)) h res_id lines
          among made in
      let found =
        line_for-log_lines env table (prepare_on_write env call.log_type res_id past values)
          (prepare_on_write-keeps env call.log_type res_id past values) k f known
          (changed current old) (excluded_fields call.rule ++ fields_blacklist) lines
          (sym (ap (λ m. lines_of env m call.log_type call.rule past values res_id) writes)
            ∙ made) in
      let same : has k (changed current old) ≡ false =
        ground (arith, has-changed k current old, ev, ew, same_value_refl v) in
      rw all (ground (arith, found, same))
