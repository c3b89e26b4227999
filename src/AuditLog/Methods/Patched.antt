-- ===== src/AuditLog/Methods/Patched.antt =====
-- The patched methods: what `_make_create`, `_make_read`, `_make_write`, `_make_unlink` and
-- `_make_export_data` return (auditlog/models/auditlog_rule.py).
use Prim.Native.String.{String}
use others_addons.Base.{
  ℕ, Bool, true, false, List, [], ◌∷◌, Option, some, ◌>>=◌, contains, if◌then◌else◌,
}
use others_addons.AuditLog.Differ.{Values}
use others_addons.AuditLog.Lines.{full, fast, Records, Models}
use others_addons.AuditLog.Logs.{
  create_method, read_method, write_method, unlink_method, export_data_method, Log, create_logs,
}
use others_addons.AuditLog.Methods.{
  RecordId, ids_of_records, stored_ids, Key, has_key, Context, State, Setup, fields_list,
  without_reads, call_of, Origin, Audited, with_logs, without_logs, Given, update_vals_list,
  flushed, zip_strict, for_each, all_unset,
}

abbrev pub is_nil : List ℕ → Bool
is_nil [] = true
is_nil (i ∷ l) = false

-- The set of a context without a guard is a new one, which ends with the call.
abbrev pub leave :
    {D R : Type 0} → Context → List Key → R × State D × List Log → R × State D × List Log
leave context guard (result, after, logs) =
    (result, (if context.guarded then after else record after { guard = guard }), logs)

-- The logs of a deletion are made before it.
unfoldable pub logs_then :
    {D R : Type 0} → Option (List Log) → Option (R × State D) → Option (R × State D × List Log)
logs_then logs call = do made ← logs; with_logs call (λ result after. some made)

-- `read` gives the values of the fields of the records, and `flush` writes what is pending; none is an
-- exception of theirs.
module _ {D : Type 0} (env : Models) (setup : Setup)
    (read : List String → List ℕ → D → Option Records) (flush : D → Option D) where
  abbrev pub is_excluded : Context → Bool
  is_excluded context = contains context.user setup.users_to_exclude

  -- The values of the new records are read with the fields of the model that are logged.
  unfoldable pub create_full :
      (List (List (String × Given)) → Origin D (List ℕ))
      → List (List (String × Given))
      → Audited D (List ℕ)
  create_full origin given context state =
      with_logs (origin given (without_reads context) state) (λ new_records after.
        let logs = read (fields_list setup) new_records after.db >>= (λ new_values.
          create_logs env (call_of setup context create_method full) [] new_values new_records) in
        if is_excluded context then some [] else logs)

  unfoldable pub create_fast :
      (List Values → Origin D (List ℕ)) → List (List (String × Given)) → Audited D (List ℕ)
  create_fast origin given context state =
      let vals_list = update_vals_list given in
      with_logs (origin vals_list (without_reads context) state) (λ new_records after. do
        new_values ← zip_strict vals_list new_records
        let logs =
            create_logs env (call_of setup context create_method fast) [] new_values new_records
        if is_excluded context then some [] else logs)

  -- `read` logs what it read, but for the reads of auditlog itself.
  unfoldable pub patched_read : Origin D Records → List RecordId → Audited D Records
  patched_read origin records context state = with_logs (origin context state) (λ read_values after.
      let call = call_of setup context read_method setup.log_type in
      let logs = create_logs env call read_values [] (ids_of_records records) in
      if context.disabled_read then some [] else if is_excluded context then some [] else logs)

  -- The call of the origin under the guard and the flush, with the values before and after them.
  unfoldable pub guarded_write : {R : Type 0} → Origin D R → List ℕ → Audited D R
  guarded_write origin stored context state =
      read (fields_list setup) stored state.db >>= (λ old_values.
        with_logs (flushed flush (origin context state)) (λ result after.
          let logs = read (fields_list setup) stored after.db >>= (λ new_values.
            create_logs env (call_of setup context write_method full) old_values new_values
              stored) in
          if is_excluded context then some [] else logs))

  unfoldable pub write_full : {R : Type 0} → Origin D R → List RecordId → Audited D R
  unfolding guarded_write
  write_full origin records context state =
      let guard = if context.guarded then state.guard else [] in
      let key : Key = (setup.model, ids_of_records records) in
      let inner : Context = record context { guarded = true; disabled_read = true } in
      let entered : State D = record state { guard = key ∷ guard } in
      let stored = stored_ids records in
      let logged = guarded_write origin stored inner entered in
      let unlogged = without_logs (origin inner entered) in
      if has_key key guard
      then without_logs (origin context state)
      else ((if is_nil stored then unlogged else logged)
          >>= (λ done. some (leave context state.guard done)))

  unfoldable pub write_fast : {R : Type 0} → Origin D R → Values → List RecordId → Audited D R
  write_fast origin vals records context state =
      let ids = ids_of_records records in
      with_logs (origin (without_reads context) state) (λ result after.
        let call = call_of setup context write_method fast in
        let logs = create_logs env call (for_each (all_unset vals) ids) (for_each vals ids) ids in
        if is_excluded context then some [] else logs)

  unfoldable pub unlink_full : {R : Type 0} → Origin D R → List RecordId → Audited D R
  unfolding logs_then
  unlink_full origin records context state =
      let ids = ids_of_records records in
      let logs = read (fields_list setup) ids state.db >>= (λ old_values.
        create_logs env (call_of setup context unlink_method full) old_values [] ids) in
      let call = origin (without_reads context) state in
      if is_excluded context then without_logs call else logs_then logs call

  unfoldable pub unlink_fast : {R : Type 0} → Origin D R → List RecordId → Audited D R
  unfolding logs_then
  unlink_fast origin records context state =
      let ids = ids_of_records records in
      let logs = create_logs env (call_of setup context unlink_method fast) [] [] ids in
      let call = origin (without_reads context) state in
      if is_excluded context then without_logs call else logs_then logs call

  unfoldable pub export_data : {R : Type 0} → Origin D R → List RecordId → Audited D R
  export_data origin records context state = with_logs (origin context state) (λ result after.
      let call = call_of setup context export_data_method setup.log_type in
      let logs = create_logs env call [] [] (ids_of_records records) in
      if is_excluded context then some [] else logs)
