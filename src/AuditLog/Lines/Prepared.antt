-- ===== src/AuditLog/Lines/Prepared.antt =====
-- The fields of the prepared lines (auditlog/models/auditlog_rule.py).
use others_addons.Base.{ℕ, ◌≡◌, refl, Option, none, some, ◌>>=◌, arith}
use others_addons.AuditLog.Differ.{Value}
use others_addons.AuditLog.Lines.{
  Field, Line, LogType, Records, value_at, Models, prepare_on_read, prepare_on_write,
  prepare_on_create, shown, old_shown, named_model,
}

bind-keeps :
    {A : Type 0} (o : Option A) (next : A → Line) (id : ℕ) (l : Line)
    → ((a : A) → (next a).field_id ≡ id)
    → (o >>= (λ a. some (next a))) ≡ some l
    → l.field_id ≡ id
bind-keeps none next id l keeps h = absurd (ground (arith, h))
bind-keeps (some a) next id l keeps h = ground (arith, h, keeps a)

bind_twice-keeps :
    {A B : Type 0} (o : Option A) (p : Option B) (next : A → B → Line) (id : ℕ) (l : Line)
    → ((a : A) (b : B) → (next a b).field_id ≡ id)
    → (o >>= (λ a. p >>= (λ b. some (next a b)))) ≡ some l
    → l.field_id ≡ id
bind_twice-keeps none p next id l keeps h = absurd (ground (arith, h))
bind_twice-keeps (some a) p next id l keeps h = bind-keeps p (next a) id l (keeps a) h

module _ (env : Models) where
  pub prepare_on_read-keeps :
      (res_id : ℕ) (values : Records) (f : Field) (l : Line)
      → prepare_on_read env res_id values f ≡ some l
      → l.field_id ≡ f.id
  unfolding prepare_on_read
  prepare_on_read-keeps res_id values f l h =
      bind-keeps (value_at res_id f.name values) _ f.id l (λ v. refl) h

  pub prepare_on_create-keeps :
      (log_type : LogType) (res_id : ℕ) (values : Records) (f : Field) (l : Line)
      → prepare_on_create env log_type res_id values f ≡ some l
      → l.field_id ≡ f.id
  unfolding prepare_on_create
  prepare_on_create-keeps log_type res_id values f l h =
      bind-keeps (value_at res_id f.name values) _ f.id l (λ v. refl) h

  pub prepare_on_write-keeps :
      (log_type : LogType) (res_id : ℕ) (past values : Records) (f : Field) (l : Line)
      → prepare_on_write env log_type res_id past values f ≡ some l
      → l.field_id ≡ f.id
  unfolding prepare_on_write
  prepare_on_write-keeps log_type res_id past values f l h =
      bind_twice-keeps (value_at res_id f.name past) (value_at res_id f.name values) _ f.id l
        (λ v w. refl) h

  -- The values of the line of a write.
  pub prepare_on_write-values :
      (log_type : LogType) (res_id : ℕ) (past values : Records) (f : Field) (v w : Value)
      → value_at res_id f.name past ≡ some v
      → value_at res_id f.name values ≡ some w
      → (l : Line) × (prepare_on_write env log_type res_id past values f ≡ some l)
        × (l.old_value ≡ v)
        × (l.new_value ≡ w)
  unfolding prepare_on_write
  prepare_on_write-values log_type res_id past values f v w e d = (
    record {
      field_id = f.id;
      old_value = v;
      old_value_text = old_shown env (named_model env log_type f) v;
      new_value = w;
      new_value_text = shown env (named_model env log_type f) w;
    },
    rw e (rw d refl),
    refl,
    refl,
  )
