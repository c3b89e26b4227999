-- ===== src/AuditLog/Methods/Transparent.antt =====
-- The patched methods do what the methods they replace do (auditlog/models/auditlog_rule.py).
use Prim.Native.String.{String}
use others_addons.Base.{◌≡◌, List, Option, none, some}
use others_addons.AuditLog.Logs.{Log}
use others_addons.AuditLog.Methods.{Context, State, Origin}

-- The result and the database after a call.
abbrev pub done : {D R : Type 0} → Option (R × State D) → Option (R × D)
done none = none
done (some (result, state)) = some (result, state.db)

abbrev pub audited : {D R : Type 0} → Option (R × State D × List Log) → Option (R × D)
audited none = none
audited (some (result, state, logs)) = some (result, state.db)

-- What a method does to the database does not depend on what auditlog keeps in the context.
abbrev pub IgnoresAudit : {D R : Type 0} → Origin D R → Type 0
IgnoresAudit origin =
    (c d : Context) (s t : State _)
    → c.user ≡ d.user
    → s.db ≡ t.db
    → done (origin c s) ≡ done (origin d t)
