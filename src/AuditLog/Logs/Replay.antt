-- ===== src/AuditLog/Logs/Replay.antt =====
-- The logs of a write tell the old values from the new ones (auditlog/models/auditlog_rule.py).
use Prim.Native.String.{String}
use others_addons.Base.{
  bind-some, ℕ, ◌≡◌, refl, ap, subst, ◌∙◌, sym, inl, inr, Bool, true, false, not, ◌||◌, List, [],
  ◌∷◌, ◌++◌, Option, none, some, ◌==◌, ==_iff, has, keys, lookup, contains, if◌then◌else◌, arith,
  Bool-cases, has-keys,
}
use others_addons.AuditLog.Differ.{Value, Values, changed, same_value}
use others_addons.AuditLog.Differ.Partition.{has-changed, same_value-eq}
use others_addons.AuditLog.Lines.{
  Field, Line, LogType, Records, value_at, Models, fields_blacklist, prepare_on_write,
  create_log_line_on_write,
}
use others_addons.AuditLog.Logs.{
  write_method, is_unlink, is_empty, is_export, excluded_fields, Log, Call, get_values, lines_of,
  log_of, record_logs, create_logs,
}
use others_addons.AuditLog.Logs.Lookup.{IsFieldTable, line_for, line_for-log_lines}
use others_addons.AuditLog.Lines.Prepared.{prepare_on_write-keeps, prepare_on_write-values}
use others_addons.AuditLog.Logs.Complete.{value_at-get_values, lines_of-returns}

abbrev pub is_about : ℕ → List ℕ → Bool
is_about res_id (i ∷ []) = res_id == i
is_about res_id _ = false

-- The lines about a record: those of its first log.
unfoldable pub lines_about : ℕ → List Log → List Line
lines_about res_id [] = []
lines_about res_id (log ∷ logs) =
    let rest = lines_about res_id logs in if is_about res_id log.res_ids then log.line_ids else rest

-- What a line leaves of a value, and what it took it from.
abbrev pub value_after : Option Line → Value → Value
value_after none v = v
value_after (some l) v = l.new_value

abbrev pub value_before : Option Line → Value → Value
value_before none v = v
value_before (some l) v = l.old_value

is_empty-nil : (lines : List Line) → is_empty lines ≡ true → lines ≡ []
is_empty-nil [] h = refl
is_empty-nil (l ∷ lines) h = absurd (ground (arith, h))

-- The logs of the other records, with the log of a record in front if it is kept.
lines_about-kept :
    (res_id i : ℕ) (kept among : Bool) (log : Log) (rest : List Log) (lines : List Line)
    → log.res_ids ≡ i ∷ []
    → (res_id ≡ i → log.line_ids ≡ lines)
    → (kept ≡ false → log.line_ids ≡ [])
    → lines_about res_id rest ≡ (if among then lines else [])
    → lines_about res_id (if kept then log ∷ rest else rest)
      ≡ (if res_id == i || among then lines else [])
unfolding lines_about
lines_about-kept res_id i true among log rest lines alone mine empty ih =
    elim (Bool-cases (res_id == i)) [
      | inl same ↦ rw (alone, same) (mine ((==_iff res_id i).0 same))
      | inr other ↦ rw (alone, other) ih
    ]
lines_about-kept res_id i false among log rest lines alone mine empty ih =
    elim (Bool-cases (res_id == i)) [
      | inl same ↦ ground (arith, mine ((==_iff res_id i).0 same), empty refl, ih, same)
      | inr other ↦ rw other ih
    ]

module _ (env : Models) where
  -- The lines about a record in the logs are those that its turn of the loop makes.
  pub lines_about-record_logs :
      (call : Call) (model_id : ℕ) (past values : Records) (res_ids : List ℕ) (logs : List Log)
      → record_logs env call model_id past values res_ids ≡ some logs
      → (res_id : ℕ) (lines : List Line)
      → lines_of env call.method call.log_type call.rule past values res_id ≡ some lines
      → lines_about res_id logs ≡ (if contains res_id res_ids then lines else [])
  unfolding record_logs lines_about contains
  lines_about-record_logs call model_id past values [] logs h res_id lines made = ground (arith, h)
  lines_about-record_logs call model_id past values (i ∷ res_ids) logs h res_id lines made =
      let (ls, made_i, h2) =
        bind-some (lines_of env call.method call.log_type call.rule past values i) _ logs h in
      let (rest, made_rest, h3) =
        bind-some (record_logs env call model_id past values res_ids) _ logs h2 in
      let ih =
        lines_about-record_logs call model_id past values res_ids rest made_rest res_id lines
          made in
      let log = log_of env call model_id (env.display_name call.res_model i) (i ∷ []) ls in
      let kept = is_unlink call.method || not (is_empty ls) in
      let all : (if kept then log ∷ rest else rest) ≡ logs = ground (arith, h3) in
      let mine : res_id ≡ i → ls ≡ lines = λ e. ground (
        arith,
        made_i,
        made,
        ap (lines_of env call.method call.log_type call.rule past values) e,
      ) in
      let empty : kept ≡ false → ls ≡ [] = λ e. is_empty-nil ls (ground (arith, e)) in
      subst
        (λ l. lines_about res_id l ≡ (if res_id == i || contains res_id res_ids then lines else []))
        all
        (lines_about-kept res_id i kept (contains res_id res_ids) log rest lines refl mine empty ih)

  pub create_logs-lines :
      (call : Call) (past values : Records) (res_ids : List ℕ) (logs : List Log)
      → is_export call.method ≡ false
      → create_logs env call past values res_ids ≡ some logs
      → (res_id : ℕ) (lines : List Line) → contains res_id res_ids ≡ true
      → lines_of env call.method call.log_type call.rule past values res_id ≡ some lines
      → lines_about res_id logs ≡ lines
  unfolding create_logs
  create_logs-lines call past values res_ids logs other h res_id lines among made =
      let (model_id, cached, h2) = bind-some (lookup call.res_model call.model_cache) _ logs h in
      let h3 : record_logs env call model_id past values res_ids ≡ some logs =
        ground (arith, h2, other) in
      ground (
        arith,
        lines_about-record_logs call model_id past values res_ids logs h3 res_id lines made,
        among,
      )

-- The value of a key is among the keys.
pub lookup-has :
    (k : String) (values : Values) (v : Value)
    → lookup k values ≡ some v
    → has k (keys values) ≡ true
lookup-has k values v e = elim (has-keys k values) [
  | inl (here, w, d) ↦ here
  | inr (out, d) ↦ absurd (ground (arith, e, d))
]

module _ (env : Models) (table : IsFieldTable env) where
  -- The line of a write for a field that both records have.
  line_for-write :
      (log_type : LogType) (res_id : ℕ) (past values : Records) (excluded : List String)
      (lines : List Line)
      → create_log_line_on_write env log_type res_id
          (changed (get_values res_id values) (get_values res_id past))
          past
          values
          excluded
        ≡ some lines
      → (k : String) (f : Field) → env.get_field k ≡ some f
      → has k (excluded ++ fields_blacklist) ≡ false
      → (v w : Value) → value_at res_id k past ≡ some v
      → value_at res_id k values ≡ some w
      → (value_after (line_for f.id lines) v ≡ w) × (value_before (line_for f.id lines) w ≡ v)
  unfolding create_log_line_on_write
  line_for-write log_type res_id past values excluded lines made k f known shown_k v w e d =
      let current = get_values res_id values in
      let old = get_values res_id past in
      let ev : lookup k old ≡ some v = sym (value_at-get_values res_id k past) ∙ e in
      let ew : lookup k current ≡ some w = sym (value_at-get_values res_id k values) ∙ d in
      let found =
        line_for-log_lines env table (prepare_on_write env log_type res_id past values)
          (prepare_on_write-keeps env log_type res_id past values) k f known (changed current old)
          (excluded ++ fields_blacklist) lines made in
      let among : has k (changed current old) ≡ not (same_value v w) = ground (
        arith,
        has-changed k current old,
        lookup-has k old v ev,
        lookup-has k current w ew,
        ev,
        ew,
      ) in
      elim (Bool-cases (same_value v w)) [
        | inl same ↦
            let e2 : v ≡ w = same_value-eq v w same in
            let no_line : line_for f.id lines ≡ none = ground (arith, found, among, same) in
            (rw no_line e2, rw no_line (sym e2))
        | inr differ ↦
            let (l, p, o, n) =
              prepare_on_write-values env log_type res_id past values f v w
                (rw (table.name_of k f known) e) (rw (table.name_of k f known) d) in
            let one_line : line_for f.id lines ≡ some l =
              ground (arith, found, among, differ, shown_k, p) in
            (rw one_line n, rw one_line o)
      ]

  -- The logs of a write tell the values of a field that is not excluded from each other: for every
  -- record of the call, the line about the field, if there is one, leaves the new value and took it
  -- from the old value, and where there is no line the two values are equal.
  pub create_logs-replay :
      (call : Call)
      → call.method ≡ write_method
      → (past values : Records) (res_ids : List ℕ) (logs : List Log)
      → create_logs env call past values res_ids ≡ some logs
      → (res_id : ℕ) → contains res_id res_ids ≡ true
      → (k : String) (f : Field) → env.get_field k ≡ some f
      → has k (excluded_fields call.rule ++ fields_blacklist) ≡ false
      → (v w : Value) → value_at res_id k past ≡ some v
      → value_at res_id k values ≡ some w
      → (value_after (line_for f.id (lines_about res_id logs)) v ≡ w)
        × (value_before (line_for f.id (lines_about res_id logs)) w ≡ v)
  unfolding lines_of
  create_logs-replay call writes past values res_ids logs h res_id among k f known shown_k v w e d =
      let (lines, made) =
        lines_of-returns env table call.method call.log_type call.rule past values res_id in
      let all : lines_about res_id logs ≡ lines =
        create_logs-lines env call past values res_ids logs (ground (arith, writes)) h res_id lines
          among made in
      let made_by_write =
        sym (ap (λ m. lines_of env m call.log_type call.rule past values res_id) writes) ∙ made in
      rw all (
        line_for-write call.log_type res_id past values (excluded_fields call.rule) lines
          made_by_write k f known shown_k v w e d)
