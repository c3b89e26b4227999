-- ===== src/AuditLog/Tests.antt =====
-- Concrete logs and rules (auditlog/models/auditlog_rule.py).
mod Partners
mod Rules
use Prim.Native.String.{String}
use text.Mathlib.Text.{◌==◌ as str_eq}
use text.Mathlib.TextEquality.{eq_iff}
use others_addons.Base.{
  ℕ, zero, suc, ◌+◌, ◌≡◌, refl, ap, sym, ◌∙◌, ◌⊎◌, inl, inr, Bool, true, false, List, [], ◌∷◌, ◌++◌,
  map, Option, none, some, if◌then◌else◌, keep, has, Bool-cases, if_true, if_false, some-injective,
  contains, lookup,
}
use others_addons.AuditLog.Differ.{Value, number, scalar, ids, Values, unset, changed}
use others_addons.AuditLog.Lines.{
  Field, other_type, many2many, plain, Models, create_log_line_on_write, record_of,
  prepare_on_write, old_shown, shown, related_model, fields_blacklist, Records, full, fast, Line,
  value_at,
}
use others_addons.AuditLog.Logs.{
  Call, Log, LogRule, write_method, create_logs, get_values, excluded_fields,
}
use others_addons.AuditLog.Logs.Lookup.{IsFieldTable, line_for}
use others_addons.AuditLog.Logs.Replay.{lines_about, value_after, value_before, create_logs-replay}
use others_addons.AuditLog.Logs.Complete.{create_logs-returns}
use others_addons.AuditLog.Logs.Excluded.{create_logs-excludes}
use others_addons.AuditLog.Methods.{
  real_id, new_id, RecordId, Context, State, Setup, Origin, stored_ids, ids_of_records, all_unset,
  Key, has_key, without_logs, FieldDef, Given, empty_records,
}
use others_addons.AuditLog.Methods.Patched.{write_full, write_fast}
use others_addons.AuditLog.Methods.Transparent.{done}
use others_addons.AuditLog.Methods.Unlogged.{write_full-twice, write_fast-unset}
use others_addons.AuditLog.Tests.Partners.{
  name_field, tags_field, partner_field, partners, partners-IsFieldTable, cache, written, before,
  after, written_logs, written-logs,
}

create_logs-returns_example :
    (logs : List Log) × (create_logs partners written before after (4 ∷ 5 ∷ []) ≡ some logs)
unfolding lookup
create_logs-returns_example =
    create_logs-returns partners partners-IsFieldTable written 7 refl before after (4 ∷ 5 ∷ [])

create_logs-replay_example :
    (value_after (line_for 1 (lines_about 4 written_logs)) (scalar "Ann") ≡ scalar "Anne")
    × (value_before (line_for 1 (lines_about 4 written_logs)) (scalar "Anne") ≡ scalar "Ann")
unfolding contains has value_at record_of lookup
create_logs-replay_example =
    create_logs-replay partners partners-IsFieldTable written refl before after (4 ∷ 5 ∷ [])
      written_logs written-logs 4 refl "name" name_field refl refl (scalar "Ann") (scalar "Anne")
      refl refl

create_logs-excludes_example : line_for 2 (lines_about 5 written_logs) ≡ none
unfolding has
create_logs-excludes_example =
    create_logs-excludes partners partners-IsFieldTable "tag_ids" tags_field refl written before
      after (4 ∷ 5 ∷ []) written_logs refl written-logs 5

-- A database with two versions of the records.
abbrev read_version : List String → List ℕ → ℕ → Option Records
read_version fields l zero = some before
read_version fields l (suc n) = some after

abbrev setup : Setup
setup = record {
  model = "partner";
  model_fields = record { name = "name"; compute = false; related = false; store = true } ∷ [];
  model_cache = cache;
  rule = none;
  log_type = full;
  users_to_exclude = 2 ∷ [];
  http_request = none;
  http_session = none;
}

abbrev next_version : {R : Type 0} → R → Origin ℕ R
next_version r context state = some (r, record state { db = suc state.db })

abbrev outside : Context
outside = record { user = 1; guarded = false; disabled_read = false }

abbrev inside : Context
inside = record { user = 1; guarded = true; disabled_read = true }

abbrev first_version : State ℕ
first_version = record { db = 0; guard = [] }

abbrev given_name : List (List (String × Given))
given_name = (("name", empty_records) ∷ []) ∷ []

-- The new records have the numbers from 4 on.
abbrev new_numbers : ℕ → List Values → List ℕ
new_numbers n [] = []
new_numbers n (vals ∷ vals_list) = n ∷ new_numbers (suc n) vals_list

abbrev creates : List Values → Origin ℕ (List ℕ)
creates vals_list = next_version (new_numbers 4 vals_list)

next_version-keeps :
    (c : Context) (s : State ℕ) (key : Key)
    → c.guarded ≡ true
    → has_key key s.guard ≡ true
    → (r : Bool) (t : State ℕ) → next_version true c s ≡ some (r, t)
    → has_key key t.guard ≡ true
next_version-keeps c s key guarded has r t h =
    sym (ap (λ d. has_key key d.1.guard) (some-injective _ _ h)) ∙ has

-- A state in which the records no longer change.
abbrev settled : State ℕ
settled = record { db = 1; guard = [] }

abbrev second_version : State ℕ
second_version = record { db = 2; guard = ("partner", 4 ∷ []) ∷ [] }

write_full-twice_example :
    write_full partners setup read_version some
      (next_version true)
      (real_id 4 ∷ [])
      inside
      second_version
    ≡ some (true, record second_version { db = 3 }, [])
unfolding write_full has_key stored_ids contains create_logs lookup create_log_line_on_write changed
    keep get_values record_of has ids_of_records
write_full-twice_example =
    write_full-twice partners setup read_version some (next_version true) (next_version true)
      next_version-keeps (real_id 4 ∷ []) inside settled refl true second_version [] refl

write_fast-unset_example : line_for 1 (lines_about 4 []) ≡ none
unfolding write_fast contains create_logs lookup ids_of_records create_log_line_on_write changed
    keep get_values record_of has all_unset
write_fast-unset_example =
    write_fast-unset partners partners-IsFieldTable setup read_version some (next_version true)
      (("name", unset) ∷ []) (real_id 4 ∷ []) outside first_version true
      (record first_version { db = 1 }) [] refl "name" name_field refl refl 4 refl
