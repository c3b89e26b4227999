-- ===== src/AuditLog/Tests/Partners.antt =====
-- A model with two fields, and the logs of a write on its records
-- (auditlog/models/auditlog_rule.py).
use Prim.Native.String.{String}
use text.Mathlib.Text.{◌==◌ as str_eq}
use text.Mathlib.TextEquality.{eq_iff}
use others_addons.Base.{
  ℕ, ◌≡◌, refl, ap, sym, ◌∙◌, ◌⊎◌, inl, inr, false, List, [], ◌∷◌, Option, none, some,
  if◌then◌else◌, arith, keep, has, Bool-cases, if_true, if_false, some-injective, lookup,
}
use others_addons.AuditLog.Differ.{scalar, ids, changed}
use others_addons.AuditLog.Lines.{
  Field, other_type, many2many, plain, Models, create_log_line_on_write, record_of,
  prepare_on_write, old_shown, shown, related_model, Records, full, value_at,
}
use others_addons.AuditLog.Logs.{Call, Log, write_method, create_logs, get_values}
use others_addons.AuditLog.Logs.Lookup.{IsFieldTable}

abbrev pub name_field : Field
name_field = record { id = 1; name = "name"; relation = none; ttype = other_type }

abbrev pub tags_field : Field
tags_field = record { id = 2; name = "tag_ids"; relation = some "tag"; ttype = many2many }

abbrev pub partner_field : String → Option Field
partner_field k =
    if str_eq k "name"
    then some name_field
    else if str_eq k "tag_ids"
    then some tags_field
    else none

abbrev pub partners : Models
partners = record {
  get_field = partner_field;
  display_name = λ model i. model;
  search = λ model l. l;
}

found_field :
    (k : String) (f : Field)
    → partner_field k ≡ some f
    → ((name_field ≡ f) × (k ≡ "name")) ⊎ ((tags_field ≡ f) × (k ≡ "tag_ids"))
found_field k f h = elim (Bool-cases (str_eq k "name")) [
  | inl is_name ↦
      inl (some-injective _ _ (sym (if_true _ _ _ is_name) ∙ h), (eq_iff k "name").0 is_name)
  | inr other ↦
      let rest = sym (if_false _ _ _ other) ∙ h in
      elim (Bool-cases (str_eq k "tag_ids")) [
        | inl is_tags ↦ inr (
          some-injective _ _ (sym (if_true _ _ _ is_tags) ∙ rest),
          (eq_iff k "tag_ids").0 is_tags,
        )
        | inr unknown ↦ absurd (ground (arith, sym (if_false _ _ _ unknown) ∙ rest))
      ]
]

pub partners-IsFieldTable : IsFieldTable partners
partners-IsFieldTable = record {
  name_of = λ k f h. elim (found_field k f h) [
    | inl (e, n) ↦ ap (λ g. Field.name g) (sym e) ∙ sym n
    | inr (e, n) ↦ ap (λ g. Field.name g) (sym e) ∙ sym n
  ];
  one_name = λ k j f g h h2 same. elim (found_field k f h) [
    | inl (e, n) ↦ elim (found_field j g h2) [
      | inl (d, m) ↦ n ∙ sym m
      | inr (d, m) ↦ absurd (ground (arith, ap (λ x. Field.id x) e, ap (λ x. Field.id x) d, same))
    ]
    | inr (e, n) ↦ elim (found_field j g h2) [
      | inl (d, m) ↦ absurd (ground (arith, ap (λ x. Field.id x) e, ap (λ x. Field.id x) d, same))
      | inr (d, m) ↦ n ∙ sym m
    ]
  ];
}

abbrev pub cache : List (String × ℕ)
cache = ("partner", 7) ∷ []

abbrev pub written : Call
written = record {
  uid = 1;
  http_request = none;
  http_session = none;
  res_model = "partner";
  model_cache = cache;
  rule = some (record { fields_to_exclude = "tag_ids" ∷ []; capture_record = false });
  method = write_method;
  log_type = full;
}

abbrev pub before : Records
before =
    (4, ("name", scalar "Ann") ∷ ("tag_ids", ids (1 ∷ [])) ∷ [])
    ∷ (5, ("name", scalar "Bob") ∷ ("tag_ids", ids []) ∷ [])
    ∷ []

abbrev pub after : Records
after =
    (4, ("name", scalar "Anne") ∷ ("tag_ids", ids (1 ∷ 2 ∷ [])) ∷ [])
    ∷ (5, ("name", scalar "Bob") ∷ ("tag_ids", ids (2 ∷ [])) ∷ [])
    ∷ []

-- The second record has no log, as its only change is of a field that is excluded.
abbrev pub written_logs : List Log
written_logs =
    record {
      model_id = 7;
      method = write_method;
      user_id = 1;
      http_request_id = none;
      http_session_id = none;
      log_type = full;
      name = "partner";
      res_ids = 4 ∷ [];
      line_ids =
          record {
            field_id = 1;
            old_value = scalar "Ann";
            old_value_text = plain (scalar "Ann");
            new_value = scalar "Anne";
            new_value_text = plain (scalar "Anne");
          }
          ∷ [];
    }
    ∷ []

pub written-logs : create_logs partners written before after (4 ∷ 5 ∷ []) ≡ some written_logs
unfolding create_logs lookup create_log_line_on_write changed keep get_values record_of has
    prepare_on_write value_at old_shown shown related_model
written-logs = refl
