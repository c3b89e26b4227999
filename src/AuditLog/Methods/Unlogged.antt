-- ===== src/AuditLog/Methods/Unlogged.antt =====
-- Writes that are not logged (auditlog/models/auditlog_rule.py).
use Prim.Native.String.{String}
use text.Mathlib.TextPositions.{eq_refl}
use others_addons.Base.{
  bind-some, ℕ, ◌≡◌, refl, ap, subst, ◌∙◌, sym, inl, inr, true, List, [], ◌∷◌, Option, none, some,
  lookup, contains, if◌then◌else◌, arith, Bool-cases, if_true, if_false, some-injective, ◌==◌,
}
use others_addons.AuditLog.Differ.{Value, Values, unset, same_ids}
use others_addons.AuditLog.Lines.{Field, fast, Records, record_of, value_at, Models}
use others_addons.AuditLog.Logs.{write_method, Log}
use others_addons.AuditLog.Logs.Lookup.{IsFieldTable, line_for}
use others_addons.AuditLog.Logs.Replay.{lines_about}
use others_addons.AuditLog.Logs.Unchanged.{create_logs-unchanged}
use others_addons.AuditLog.Methods.{
  RecordId, ids_of_records, stored_ids, Key, has_key, Context, State, Setup, call_of, Origin,
  flushed, fields_list, with_logs, without_logs, without_reads, for_each, all_unset,
}
use others_addons.AuditLog.Methods.Patched.{guarded_write, write_full, write_fast, is_nil, leave}
use text.Mathlib.Text.{◌==◌ as str_eq}

same_ids_refl : (l : List ℕ) → same_ids l l ≡ true
same_ids_refl [] = refl
same_ids_refl (a ∷ l) = ground (arith, same_ids_refl l)

has_key_first : (key : Key) (guard : List Key) → has_key key (key ∷ guard) ≡ true
unfolding has_key
has_key_first (model, ids) guard = ground (arith, eq_refl model, same_ids_refl ids)

-- A method only adds to the guard of the context.
abbrev pub KeepsGuard : {D R : Type 0} → Origin D R → Type 0
KeepsGuard origin =
    (c : Context) (s : State _) (key : Key)
    → c.guarded ≡ true
    → has_key key s.guard ≡ true
    → (r : _) (t : State _) → origin c s ≡ some (r, t)
    → has_key key t.guard ≡ true

module _ {D R : Type 0} where
  drop_logs : Option (R × State D × List Log) → Option (R × State D)
  drop_logs none = none
  drop_logs (some (r, s, logs)) = some (r, s)

  with_logs-state :
      (call : Option (R × State D)) (logs_of : R → State D → Option (List Log)) (r : R)
      (t : State D) (logs : List Log)
      → with_logs call logs_of ≡ some (r, t, logs)
      → call ≡ some (r, t)
  unfolding drop_logs
  with_logs-state none logs_of r t logs h = absurd (ground (arith, h))
  with_logs-state (some (q, s)) logs_of r t logs h =
      let (l, made, h2) = bind-some (logs_of q s) _ (r, t, logs) h in ap drop_logs h2

  flushed-state :
      (flush : D → Option D) (call : Option (R × State D)) (r : R) (t : State D)
      → flushed flush call ≡ some (r, t)
      → (s : State D) × (call ≡ some (r, s)) × (s.guard ≡ t.guard)
  flushed-state flush none r t h = absurd (ground (arith, h))
  flushed-state flush (some (q, s)) r t h =
      let (db, e, h2) = bind-some (flush s.db) _ (r, t) h in
      let same = some-injective _ _ h2 in
      (s, ap (λ x. some (x.0, s)) same, ap (λ x. State.guard x.1) same)

  leave-inside :
      (context : Context) (guard : List Key) (d e : R × State D × List Log)
      → context.guarded ≡ true
      → some (leave context guard d) ≡ some e
      → d ≡ e
  leave-inside context guard (r, s, logs) e inside h =
      let left : leave context guard (r, s, logs) ≡ (r, s, logs) = rw inside refl in
      sym left ∙ some-injective _ _ h

module _ {D : Type 0} (env : Models) (setup : Setup)
    (read : List String → List ℕ → D → Option Records) (flush : D → Option D) where
  -- The call of the origin behind an inner write that ends.
  inside_origin :
      {R : Type 0} (origin : Origin D R) (stored : List ℕ) (context : Context) (state : State D)
      (r : R) (after : State D) (logs : List Log)
      → (if is_nil stored
          then without_logs (origin context state)
          else guarded_write env setup read flush origin stored context state)
        ≡ some (r, after, logs)
      → (t : State D) × (origin context state ≡ some (r, t)) × (t.guard ≡ after.guard)
  unfolding guarded_write
  inside_origin origin stored context state r after logs h = elim (Bool-cases (is_nil stored)) [
    | inl nothing ↦ (
      after,
      with_logs-state (origin context state) _ r after logs (sym (if_true _ _ _ nothing) ∙ h),
      refl,
    )
    | inr some_stored ↦
        let (old_values, _, h2) =
          bind-some (read (fields_list setup) stored state.db) _ (r, after, logs)
            (sym (if_false _ _ _ some_stored) ∙ h) in
        flushed-state flush (origin context state) r after
          (with_logs-state (flushed flush (origin context state)) _ r after logs h2)
  ]

  write_full-guard :
      {R : Type 0} (origin : Origin D R)
      → KeepsGuard origin
      → (records : List RecordId) (context : Context) (state : State D) → context.guarded ≡ true
      → (r : R) (after : State D) (logs : List Log)
      → write_full env setup read flush origin records context state ≡ some (r, after, logs)
      → has_key (setup.model, ids_of_records records) after.guard ≡ true
  unfolding write_full guarded_write
  write_full-guard origin keeps records context state inside r after logs h =
      let key : Key = (setup.model, ids_of_records records) in
      let inner : Context = record context { guarded = true; disabled_read = true } in
      let entered : State D = record state {
        guard = key ∷ (if context.guarded then state.guard else []);
      } in
      elim (Bool-cases (has_key key (if context.guarded then state.guard else []))) [
        | inl found ↦
            let h2 : without_logs (origin context state) ≡ some (r, after, logs) =
              sym (if_true _ _ _ found) ∙ h in
            let h3 = with_logs-state (origin context state) _ r after logs h2 in
            keeps context state key inside (ground (arith, found, inside)) r after h3
        | inr fresh ↦
            let h2 = sym (if_false _ _ _ fresh) ∙ h in
            let (d, hd, he) =
              bind-some
                (if is_nil (stored_ids records)
                  then without_logs (origin inner entered)
                  else guarded_write env setup read flush origin (stored_ids records) inner entered)
                _ (r, after, logs) h2 in
            let e = leave-inside context state.guard d (r, after, logs) inside he in
            let (t, h3, same) =
              inside_origin origin (stored_ids records) inner entered r after logs
                (hd ∙ ap some e) in
            subst (λ g. has_key key g ≡ true) same
              (keeps inner entered key refl (has_key_first key _) r t h3)
      ]

  -- A second full write of the same records inside another audited write, as an override of `write`
  -- makes it, is not logged: the first one leaves its key in the guard that the two share, when the
  -- replaced method takes no key out of the guard.
  pub write_full-twice :
      {R Q : Type 0} (origin : Origin D R) (next : Origin D Q)
      → KeepsGuard origin
      → (records : List RecordId) (context : Context) (state : State D) → context.guarded ≡ true
      → (r : R) (after : State D) (logs : List Log)
      → write_full env setup read flush origin records context state ≡ some (r, after, logs)
      → write_full env setup read flush next records context after
        ≡ without_logs (next context after)
  unfolding write_full
  write_full-twice origin next keeps records context state inside r after logs h =
      let found = write_full-guard origin keeps records context state inside r after logs h in
      if_true
        (has_key (setup.model, ids_of_records records)
          (if context.guarded then after.guard else []))
        _ _ (ground (arith, found, inside))

-- A value `False` of a write, looked up again.
lookup-all_unset :
    (k : String) (vals : Values) (v : Value)
    → lookup k vals ≡ some v
    → lookup k (all_unset vals) ≡ some unset
unfolding lookup all_unset
lookup-all_unset k [] v h = absurd (ground (arith, h))
lookup-all_unset k ((j, w) ∷ vals) v h = elim (Bool-cases (str_eq k j)) [
  | inl same ↦ rw same refl
  | inr other ↦ rw other (lookup-all_unset k vals v (ground (arith, h, other)))
]

record_of-for_each :
    (vals : Values) (ids : List ℕ) (i : ℕ)
    → contains i ids ≡ true
    → record_of i (for_each vals ids) ≡ some vals
unfolding record_of contains
record_of-for_each vals [] i h = absurd (ground (arith, h))
record_of-for_each vals (j ∷ ids) i h = elim (Bool-cases (i == j)) [
  | inl same ↦ rw same refl
  | inr other ↦ rw other (record_of-for_each vals ids i (ground (arith, h, other)))
]

with_logs-logs :
    {D R : Type 0} (call : Option (R × State D)) (logs_of : R → State D → Option (List Log)) (r : R)
    (t : State D) (logs : List Log)
    → with_logs call logs_of ≡ some (r, t, logs)
    → logs_of r t ≡ some logs
with_logs-logs none logs_of r t logs h = absurd (ground (arith, h))
with_logs-logs (some (q, s)) logs_of r t logs h =
    let (l, made, h2) = bind-some (logs_of q s) _ (r, t, logs) h in
    let e = some-injective _ _ h2 in subst (λ d. logs_of d.0 d.1 ≡ some d.2) e made

module _ {D : Type 0} (env : Models) (table : IsFieldTable env) (setup : Setup)
    (read : List String → List ℕ → D → Option Records) (flush : D → Option D) where
  -- A fast write does not log a field that it sets to `False` (or to 0, which Python takes for
  -- equal), whatever the field held before: it stands for the old values by `False` and only logs
  -- what differs from that.
  pub write_fast-unset :
      {R : Type 0} (origin : Origin D R) (vals : Values) (records : List RecordId)
      (context : Context) (state : State D) (r : R) (after : State D) (logs : List Log)
      → write_fast env setup read flush origin vals records context state ≡ some (r, after, logs)
      → (k : String) (f : Field) → env.get_field k ≡ some f
      → lookup k vals ≡ some unset
      → (res_id : ℕ) → contains res_id (ids_of_records records) ≡ true
      → line_for f.id (lines_about res_id logs) ≡ none
  unfolding write_fast value_at line_for lines_about
  write_fast-unset origin vals records context state r after logs h k f known sets res_id among =
      let ids = ids_of_records records in
      let call = call_of setup context write_method fast in
      let made = with_logs-logs (origin (without_reads context) state) _ r after logs h in
      elim (Bool-cases (contains context.user setup.users_to_exclude)) [
        | inl excluded ↦
            let empty : [] ≡ logs = some-injective _ _ (sym (if_true _ _ _ excluded) ∙ made) in
            subst (λ l. line_for f.id (lines_about res_id l) ≡ none) empty refl
        | inr logged ↦
            create_logs-unchanged env table call refl (for_each (all_unset vals) ids)
              (for_each vals ids) ids logs (sym (if_false _ _ _ logged) ∙ made) res_id among k f
              known unset
              (rw (record_of-for_each (all_unset vals) ids res_id among)
                (lookup-all_unset k vals unset sets))
              (rw (record_of-for_each vals ids res_id among) sets)
      ]
