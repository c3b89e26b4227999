-- ===== src/AuditLog/Logs/Lookup.antt =====
-- Which line the loop of `_create_log_line_on_write` and its sisters makes for a field
-- (auditlog/models/auditlog_rule.py).
use Prim.Native.String.{String}
use text.Mathlib.Text.{◌==◌ as str_eq}
use text.Mathlib.TextEquality.{eq_iff}
use others_addons.Base.{
  bind-some, ℕ, ◌≡◌, refl, ap, subst, ◌∙◌, sym, inl, inr, true, false, not, ◌&&◌, List, [], ◌∷◌,
  Option, none, some, ◌>>=◌, ◌==◌, ==_iff, has, if◌then◌else◌, arith, Bool-cases, Option-cases, All,
}
use others_addons.AuditLog.Lines.{Field, Line, Models, log_lines}

-- The fields are found by their names, and an id belongs to one name.
pub record IsFieldTable (env : Models) : Type 0 where
  pub name_of : (k : String) (f : Field) → env.get_field k ≡ some f → f.name ≡ k
  pub one_name :
      (k j : String) (f g : Field)
      → env.get_field k ≡ some f
      → env.get_field j ≡ some g
      → f.id ≡ g.id
      → k ≡ j

-- The first line about a field.
unfoldable pub line_for : ℕ → List Line → Option Line
line_for id [] = none
line_for id (l ∷ lines) = let rest = line_for id lines in if id == l.field_id then some l else rest

abbrev pub KeepsId : (Field → Option Line) → Type 0
KeepsId prepare = (f : Field) (l : Line) → prepare f ≡ some l → l.field_id ≡ f.id

module _ (env : Models) (table : IsFieldTable env) (prepare : Field → Option Line) where
  pub log_lines-returns :
      (names excluded : List String)
      → All (λ k. (f : Field) → env.get_field k ≡ some f → (l : Line) × (prepare f ≡ some l)) names
      → (lines : List Line) × (log_lines env prepare names excluded ≡ some lines)
  unfolding log_lines
  log_lines-returns [] excluded all = ([], refl)
  log_lines-returns (n ∷ names) excluded (first, all) =
      let (lines, e) = log_lines-returns names excluded all in
      elim (Bool-cases (has n excluded)) [
        | inl out ↦ (lines, rw (out, e) refl)
        | inr kept ↦ elim (Option-cases (env.get_field n)) [
          | inl unknown ↦ (lines, rw (kept, unknown, e) refl)
          | inr (f, known) ↦
              let (l, p) = first f known in (l ∷ lines, rw (kept, known) (rw (p, e) refl))
        ]
      ]

  log_lines-excluded :
      (n : String) (names excluded : List String)
      → has n excluded ≡ true
      → log_lines env prepare (n ∷ names) excluded ≡ log_lines env prepare names excluded
  unfolding log_lines
  log_lines-excluded n names excluded out = rw out refl

  log_lines-unknown :
      (n : String) (names excluded : List String)
      → has n excluded ≡ false
      → env.get_field n ≡ none
      → log_lines env prepare (n ∷ names) excluded ≡ log_lines env prepare names excluded
  unfolding log_lines
  log_lines-unknown n names excluded kept unknown = rw (kept, unknown) refl

  log_lines-field :
      (n : String) (g : Field) (names excluded : List String)
      → has n excluded ≡ false
      → env.get_field n ≡ some g
      → log_lines env prepare (n ∷ names) excluded
        ≡ (prepare g >>= (λ p. log_lines env prepare names excluded >>= (λ rest. some (p ∷ rest))))
  unfolding log_lines
  log_lines-field n g names excluded kept found = rw (kept, found) refl

  -- The line of the field g of the name n, in front of the lines of the other names.
  line_for-made :
      (keeps : KeepsId prepare) (k n : String) (f g : Field) (known : env.get_field k ≡ some f)
      (found : env.get_field n ≡ some g) (names excluded : List String) (p : Line)
      (rest : List Line)
      → has n excluded ≡ false
      → prepare g ≡ some p
      → line_for f.id rest ≡ (if has k names && not (has k excluded) then prepare f else none)
      → line_for f.id (p ∷ rest)
        ≡ (if has k (n ∷ names) && not (has k excluded) then prepare f else none)
  unfolding line_for has
  line_for-made keeps k n f g known found names excluded p rest kept made ih =
      elim (Bool-cases (str_eq k n)) [
        | inl same ↦
            let e : k ≡ n = (eq_iff k n).0 same in
            let g_is_f : g ≡ f = ground (arith, known, found, ap env.get_field e) in
            let kept_k : has k excluded ≡ false = rw e kept in
            let made_f : prepare f ≡ some p = ap prepare (sym g_is_f) ∙ made in
            let id : p.field_id ≡ f.id = keeps f p made_f in
            ground (arith, kept_k, same, made_f, id)
        | inr other ↦ elim (Bool-cases (f.id == p.field_id)) [
          | inl one ↦
              let ids : f.id ≡ g.id = (==_iff f.id p.field_id).0 one ∙ keeps g p made in
              absurd
                (ground (arith, other, (eq_iff k n).1 (table.one_name k n f g known found ids)))
          | inr two ↦ ground (arith, other, two, ih)
        ]
      ]

  pub line_for-log_lines :
      (keeps : KeepsId prepare) (k : String) (f : Field) (known : env.get_field k ≡ some f)
      (names excluded : List String) (lines : List Line)
      → log_lines env prepare names excluded ≡ some lines
      → line_for f.id lines ≡ (if has k names && not (has k excluded) then prepare f else none)
  unfolding log_lines line_for has
  line_for-log_lines keeps k f known [] excluded lines h = ground (arith, h)
  line_for-log_lines keeps k f known (n ∷ names) excluded lines h =
      elim (Bool-cases (has n excluded)) [
        | inl out ↦
            let ih =
              line_for-log_lines keeps k f known names excluded lines
                (sym (log_lines-excluded n names excluded out) ∙ h) in
            elim (Bool-cases (str_eq k n)) [
              | inl same ↦
                  let gone : has k excluded ≡ true = rw ((eq_iff k n).0 same) out in
                  ground (arith, ih, gone, same)
              | inr other ↦ rw other ih
            ]
        | inr kept ↦ elim (Option-cases (env.get_field n)) [
          | inl unknown ↦
              let ih =
                line_for-log_lines keeps k f known names excluded lines
                  (sym (log_lines-unknown n names excluded kept unknown) ∙ h) in
              elim (Bool-cases (str_eq k n)) [
                | inl same ↦
                    absurd (ground (arith, known, unknown, ap env.get_field ((eq_iff k n).0 same)))
                | inr other ↦ rw other ih
              ]
          | inr (g, found) ↦
              let (p, made, h2) =
                bind-some (prepare g) _ lines
                  (sym (log_lines-field n g names excluded kept found) ∙ h) in
              let (rest, he, h3) = bind-some (log_lines env prepare names excluded) _ lines h2 in
              let ih = line_for-log_lines keeps k f known names excluded rest he in
              let same_lines : (p ∷ rest) ≡ lines = ground (arith, h3) in
              subst
                (λ ls.
                  line_for f.id ls
                  ≡ (if has k (n ∷ names) && not (has k excluded) then prepare f else none))
                same_lines
                (line_for-made keeps k n f g known found names excluded p rest kept made ih)
        ]
      ]
