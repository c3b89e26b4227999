-- ===== src/AuditLog/Lines.antt =====
-- The lines of a log: `_create_log_line_on_read`, `_on_write` and `_on_create`, and what they prepare
-- (auditlog/models/auditlog_rule.py).
pub mod Prepared
use Prim.Native.String.{String}
use others_addons.Base.{
  ℕ, Bool, true, false, not, ◌&&◌, List, [], ◌∷◌, ◌++◌, map, ◌||◌, zero, suc, ◌>>=◌, Option, none,
  some, ◌==◌, has, lookup, contains, if◌then◌else◌,
}
use others_addons.AuditLog.Differ.{Value, number, scalar, ids, unset, Values}

pub data Ttype : Type 0 where
  one2many : Ttype
  many2many : Ttype
  other_type : Ttype

abbrev pub is_2many : Ttype → Bool
is_2many one2many = true
is_2many many2many = true
is_2many other_type = false

-- The data of a row of `ir.model.fields`.
pub record Field : Type 0 where
  pub id : ℕ
  pub name : String
  pub relation : Option String
  pub ttype : Ttype

-- The text of a value: the value, or the ids and names of the records of a relation.
pub data Shown : Type 0 where
  plain : Value → Shown
  named : List (ℕ × String) → Shown

pub record Line : Type 0 where
  pub field_id : ℕ
  pub old_value : Value
  pub old_value_text : Shown
  pub new_value : Value
  pub new_value_text : Shown

pub data LogType : Type 0 where
  full : LogType
  fast : LogType

abbrev pub is_full : LogType → Bool
is_full full = true
is_full fast = false

-- The values of the records, by their ids.
abbrev pub Records : Type 0
Records = List (ℕ × Values)

unfoldable pub record_of : ℕ → Records → Option Values
record_of res_id [] = none
record_of res_id ((i, values) ∷ records) =
    let rest = record_of res_id records in if res_id == i then some values else rest

-- `records[res_id][field_name]`, none for a `KeyError`
unfoldable pub value_at : ℕ → String → Records → Option Value
value_at res_id field_name records = do values ← record_of res_id records; lookup field_name values

abbrev pub fields_blacklist : List String
fields_blacklist =
    "id" ∷ "create_uid" ∷ "create_date" ∷ "write_uid" ∷ "write_date" ∷ "display_name"
    ∷ "__last_update" ∷ []

-- The model of a relation to many records.
unfoldable pub related_model : Field → Option String
related_model field = if is_2many field.ttype then field.relation else none

-- The records that `browse` makes of a value.
abbrev pub ids_of : Value → List ℕ
ids_of (ids l) = l
ids_of (number zero) = []
ids_of (number (suc n)) = suc n ∷ []
ids_of (scalar _) = []

-- `set(old) - set(existing)`
unfoldable pub deleted : List ℕ → List ℕ → List ℕ
deleted [] existing = []
deleted (i ∷ old) existing =
    let rest = deleted old existing in
    if contains i existing || contains i rest then rest else i ∷ rest

-- What the lines need of the rest of Odoo: `_get_field`, the display name of a record of a model, and
-- `_search` for the records that exist.
pub record Models : Type 0 where
  pub get_field : String → Option Field
  pub display_name : String → ℕ → String
  pub search : String → List ℕ → List ℕ

module _ (env : Models) where
  abbrev pub names_of : String → List ℕ → List (ℕ × String)
  names_of model = map (λ i. (i, env.display_name model i))

  -- The text of a value: of a relation to many records of a model, their ids and names.
  unfoldable pub shown : Option String → Value → Shown
  shown none value = plain value
  shown (some model) value = named (names_of model (ids_of value))

  -- The text of an old value, where some of the records may be deleted.
  unfoldable pub old_shown : Option String → Value → Shown
  old_shown none value = plain value
  old_shown (some model) value =
      let existing = env.search model (ids_of value) in
      named (names_of model existing ++ map (λ i. (i, "DELETED")) (deleted (ids_of value) existing))

  -- `_prepare_log_line_vals_on_read`
  unfoldable pub prepare_on_read : ℕ → Records → Field → Option Line
  prepare_on_read res_id read_values field = do
    value ← value_at res_id field.name read_values
    some (record {
      field_id = field.id;
      old_value = value;
      old_value_text = shown (related_model field) value;
      new_value = unset;
      new_value_text = plain unset;
    })

  -- The model whose records a line of a write or a creation names.
  abbrev pub named_model : LogType → Field → Option String
  named_model log_type field = if is_full log_type then related_model field else none

  -- `_prepare_log_line_vals_on_write`
  unfoldable pub prepare_on_write : LogType → ℕ → Records → Records → Field → Option Line
  prepare_on_write log_type res_id old_values new_values field = do
    old ← value_at res_id field.name old_values
    new ← value_at res_id field.name new_values
    some (record {
      field_id = field.id;
      old_value = old;
      old_value_text = old_shown (named_model log_type field) old;
      new_value = new;
      new_value_text = shown (named_model log_type field) new;
    })

  -- `_prepare_log_line_vals_on_create`
  unfoldable pub prepare_on_create : LogType → ℕ → Records → Field → Option Line
  prepare_on_create log_type res_id new_values field = do
    new ← value_at res_id field.name new_values
    some (record {
      field_id = field.id;
      old_value = unset;
      old_value_text = plain unset;
      new_value = new;
      new_value_text = shown (named_model log_type field) new;
    })

  -- The loop of the three methods, over what prepares a line.
  unfoldable pub log_lines : (Field → Option Line) → List String → List String → Option (List Line)
  log_lines prepare [] excluded = some []
  log_lines prepare (field_name ∷ fields_list) excluded =
      let rest = log_lines prepare fields_list excluded in
      if has field_name excluded then rest else elim (env.get_field field_name) [
        | none ↦ rest
        | some field ↦ do prepared ← prepare field; lines ← rest; some (prepared ∷ lines)
      ]

  unfoldable pub create_log_line_on_read :
      ℕ → List String → Records → List String → Option (List Line)
  unfolding log_lines
  create_log_line_on_read res_id fields_list read_values fields_to_exclude =
      log_lines (prepare_on_read res_id read_values) fields_list
        (fields_to_exclude ++ fields_blacklist)

  unfoldable pub create_log_line_on_write :
      LogType → ℕ → List String → Records → Records → List String → Option (List Line)
  unfolding log_lines
  create_log_line_on_write log_type res_id fields_list old_values new_values fields_to_exclude =
      log_lines (prepare_on_write log_type res_id old_values new_values) fields_list
        (fields_to_exclude ++ fields_blacklist)

  unfoldable pub create_log_line_on_create :
      LogType → ℕ → List String → Records → List String → Option (List Line)
  unfolding log_lines
  create_log_line_on_create log_type res_id fields_list new_values fields_to_exclude =
      log_lines (prepare_on_create log_type res_id new_values) fields_list
        (fields_to_exclude ++ fields_blacklist)
