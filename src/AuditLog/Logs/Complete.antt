-- ===== src/AuditLog/Logs/Complete.antt =====
-- What `create_logs` always logs (auditlog/models/auditlog_rule.py).
use Prim.Native.String.{String}
use text.Mathlib.TextPositions.{eq_refl}
use others_addons.Base.{
  ℕ, ◌≡◌, refl, ◌∙◌, inl, inr, true, List, [], ◌∷◌, ◌++◌, Option, none, some, ◌>>=◌, has, keys,
  lookup, arith, Bool-cases, All, has-keys,
}
use others_addons.AuditLog.Differ.{Value, Values, added, changed}
use others_addons.AuditLog.Differ.Partition.{has-added, has-changed}
use others_addons.AuditLog.Lines.{
  Field, Line, LogType, Records, record_of, value_at, Models, fields_blacklist, prepare_on_read,
  prepare_on_write, prepare_on_create, create_log_line_on_read, create_log_line_on_write,
  create_log_line_on_create,
}
use others_addons.AuditLog.Logs.{
  Method, create_method, read_method, write_method, unlink_method, export_data_method, LogRule,
  excluded_fields, captures, is_export, Log, Call, or_empty, get_values, lines_of, log_of,
  record_logs, create_logs,
}
use others_addons.AuditLog.Logs.Lookup.{IsFieldTable, log_lines-returns}

lookup-or_empty :
    (k : String) (o : Option Values) → (o >>= (λ values. lookup k values)) ≡ lookup k (or_empty o)
unfolding lookup
lookup-or_empty k none = refl
lookup-or_empty k (some values) = refl

pub value_at-get_values :
    (res_id : ℕ) (k : String) (records : Records)
    → value_at res_id k records ≡ lookup k (get_values res_id records)
unfolding value_at get_values
value_at-get_values res_id k records = lookup-or_empty k (record_of res_id records)

has-All :
    (P : String → Type 0) (names : List String)
    → ((k : String) → has k names ≡ true → P k)
    → All P names
unfolding has
has-All P [] all = tt
has-All P (n ∷ names) all =
    (all n (ground (arith, eq_refl n)), has-All P names (λ k h. all k (ground (arith, h))))

-- A name that is a key of a record has a value there.
value_at-returns :
    (res_id : ℕ) (k : String) (records : Records)
    → has k (keys (get_values res_id records)) ≡ true
    → (v : Value) × (value_at res_id k records ≡ some v)
value_at-returns res_id k records h = elim (has-keys k (get_values res_id records)) [
  | inl (here, v, e) ↦ (v, value_at-get_values res_id k records ∙ e)
  | inr (out, e) ↦ absurd (ground (arith, h, out))
]

bind-returns :
    {A B : Type 0} (next : A → B) (o : Option A) (a : A)
    → o ≡ some a
    → (b : B) × ((o >>= (λ x. some (next x))) ≡ some b)
bind-returns next none a e = absurd (ground (arith, e))
bind-returns next (some x) a e = (next x, refl)

bind_twice-returns :
    {A B C : Type 0} (next : A → B → C) (o : Option A) (p : Option B) (a : A) (b : B)
    → o ≡ some a
    → p ≡ some b
    → (c : C) × ((o >>= (λ x. p >>= (λ y. some (next x y)))) ≡ some c)
bind_twice-returns next none p a b e f = absurd (ground (arith, e))
bind_twice-returns next (some x) p a b e f = bind-returns (next x) p b f

module _ (env : Models) (table : IsFieldTable env) where
  -- A field found by its name has a value wherever the name has one.
  field_value :
      (res_id : ℕ) (k : String) (f : Field) (records : Records)
      → env.get_field k ≡ some f
      → has k (keys (get_values res_id records)) ≡ true
      → (v : Value) × (value_at res_id f.name records ≡ some v)
  field_value res_id k f records known h =
      let (v, e) = value_at-returns res_id k records h in (v, rw (table.name_of k f known) e)

  read-returns :
      (res_id : ℕ) (values : Records) (excluded : List String)
      → (lines : List Line) × (create_log_line_on_read env res_id
            (keys (get_values res_id values))
            values
            excluded
          ≡ some lines)
  unfolding create_log_line_on_read prepare_on_read
  read-returns res_id values excluded =
      log_lines-returns env table (prepare_on_read env res_id values)
        (keys (get_values res_id values)) (excluded ++ fields_blacklist)
        (has-All
          (λ k.
            (f : Field)
            → env.get_field k ≡ some f
            → (l : Line) × (prepare_on_read env res_id values f ≡ some l))
          (keys (get_values res_id values))
          (λ k h f known.
            let (v, e) = field_value res_id k f values known h in bind-returns _ _ v e))

  create-returns :
      (log_type : LogType) (res_id : ℕ) (past values : Records) (excluded : List String)
      → (lines : List Line) × (create_log_line_on_create env log_type res_id
            (added (get_values res_id values) (get_values res_id past))
            values
            excluded
          ≡ some lines)
  unfolding create_log_line_on_create prepare_on_create
  create-returns log_type res_id past values excluded =
      let current = get_values res_id values in
      let old = get_values res_id past in
      log_lines-returns env table (prepare_on_create env log_type res_id values) (added current old)
        (excluded ++ fields_blacklist)
        (has-All
          (λ k.
            (f : Field)
            → env.get_field k ≡ some f
            → (l : Line) × (prepare_on_create env log_type res_id values f ≡ some l))
          (added current old)
          (λ k h f known.
            let here : has k (keys current) ≡ true = ground (arith, has-added k current old, h) in
            let (v, e) = field_value res_id k f values known here in bind-returns _ _ v e))

  write-returns :
      (log_type : LogType) (res_id : ℕ) (past values : Records) (excluded : List String)
      → (lines : List Line) × (create_log_line_on_write env log_type res_id
            (changed (get_values res_id values) (get_values res_id past))
            past
            values
            excluded
          ≡ some lines)
  unfolding create_log_line_on_write prepare_on_write
  write-returns log_type res_id past values excluded =
      let current = get_values res_id values in
      let old = get_values res_id past in
      log_lines-returns env table (prepare_on_write env log_type res_id past values)
        (changed current old) (excluded ++ fields_blacklist)
        (has-All
          (λ k.
            (f : Field)
            → env.get_field k ≡ some f
            → (l : Line) × (prepare_on_write env log_type res_id past values f ≡ some l))
          (changed current old)
          (λ k h f known.
            let here : has k (keys current) ≡ true = ground (arith, has-changed k current old, h) in
            let there : has k (keys old) ≡ true = ground (arith, has-changed k current old, h) in
            let (v, e) = field_value res_id k f past known there in
            let (w, d) = field_value res_id k f values known here in
            bind_twice-returns _ _ _ v w e d))

  pub lines_of-returns :
      (method : Method) (log_type : LogType) (rule : Option LogRule) (past values : Records)
      (res_id : ℕ)
      → (lines : List Line) × (lines_of env method log_type rule past values res_id ≡ some lines)
  unfolding lines_of
  lines_of-returns create_method log_type rule past values res_id =
      create-returns log_type res_id past values (excluded_fields rule)
  lines_of-returns read_method log_type rule past values res_id =
      read-returns res_id past (excluded_fields rule)
  lines_of-returns write_method log_type rule past values res_id =
      write-returns log_type res_id past values (excluded_fields rule)
  lines_of-returns unlink_method log_type rule past values res_id =
      elim (Bool-cases (captures rule)) [
        | inl yes_capture ↦
            let (lines, e) = read-returns res_id past (excluded_fields rule) in
            (lines, rw yes_capture e)
        | inr no_capture ↦ ([], rw no_capture refl)
      ]
  lines_of-returns export_data_method log_type rule past values res_id = ([], refl)

  record_logs-returns :
      (call : Call) (model_id : ℕ) (past values : Records) (res_ids : List ℕ)
      → (logs : List Log) × (record_logs env call model_id past values res_ids ≡ some logs)
  unfolding record_logs
  record_logs-returns call model_id past values [] = ([], refl)
  record_logs-returns call model_id past values (res_id ∷ res_ids) =
      let (lines, e) = lines_of-returns call.method call.log_type call.rule past values res_id in
      let (rest, d) = record_logs-returns call model_id past values res_ids in
      bind_twice-returns _ _ _ lines rest e d

  -- A call on a model that is in the cache of the models never raises a `KeyError`, whatever values
  -- it is given, when the fields are found by their names.
  pub create_logs-returns :
      (call : Call) (model_id : ℕ)
      → lookup call.res_model call.model_cache ≡ some model_id
      → (past values : Records) (res_ids : List ℕ)
      → (logs : List Log) × (create_logs env call past values res_ids ≡ some logs)
  unfolding create_logs
  create_logs-returns call model_id cached past values res_ids =
      let (logs, e) = record_logs-returns call model_id past values res_ids in
      elim (Bool-cases (is_export call.method)) [
        | inl exports ↦
            (log_of env call model_id call.res_model res_ids [] ∷ [], rw (cached, exports) refl)
        | inr other ↦ (logs, rw (cached, other) e)
      ]
