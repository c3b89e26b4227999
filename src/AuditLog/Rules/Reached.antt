-- ===== src/AuditLog/Rules/Reached.antt =====
-- The registries that operations on the rules lead to (auditlog/models/auditlog_rule.py).
use others_addons.Base.{ℕ, ◌≡◌, List, some}
use others_addons.AuditLog.Rules.{Rule, Registry}
use others_addons.AuditLog.Rules.Actions.{
  register_hook, NewRule, create, RuleVals, write, set_to_draft, set_to_confirmed, unlink,
}
use others_addons.AuditLog.Rules.Coherent.{
  IsCoherent, register_hook-IsCoherent, create-IsCoherent, write-IsCoherent,
  set_to_draft-IsCoherent, set_to_confirmed-IsCoherent, unlink-IsCoherent,
}

-- An operation on the rules that raises no exception, with the rules of the table and those it acts on.
pub data Step (registry : Registry) : Registry → Type 0 where
  hooks : (table rules : List Rule) → Step registry (register_hook table rules registry).0
  creates :
      (vals_list : List NewRule) (done : List Rule × Registry)
      → create vals_list registry ≡ some done
      → Step registry done.1
  writes :
      (table rules : List Rule) (vals : RuleVals) (done : List Rule × Registry)
      → write table vals rules registry ≡ some done
      → Step registry done.1
  drafts :
      (table rules : List Rule) (done : List Rule × Registry)
      → set_to_draft table rules registry ≡ some done
      → Step registry done.1
  confirms :
      (action : ℕ) (table rules : List Rule) (done : List Rule × Registry)
      → set_to_confirmed action table rules registry ≡ some done
      → Step registry done.1
  unlinks :
      (table rules : List Rule) (after : Registry)
      → unlink table rules registry ≡ some after
      → Step registry after

pub data Reach (first : Registry) : Registry → Type 0 where
  start : Reach first first
  next :
      (registry after : Registry) → Reach first registry → Step registry after → Reach first after

Step-IsCoherent :
    (registry after : Registry) → IsCoherent registry → Step registry after → IsCoherent after
Step-IsCoherent registry _ coherent (hooks table rules) =
    register_hook-IsCoherent table rules registry coherent
Step-IsCoherent registry _ coherent (creates vals_list done h) =
    create-IsCoherent vals_list registry done coherent h
Step-IsCoherent registry _ coherent (writes table rules vals done h) =
    write-IsCoherent table vals rules registry done coherent h
Step-IsCoherent registry _ coherent (drafts table rules done h) =
    set_to_draft-IsCoherent table rules registry done coherent h
Step-IsCoherent registry _ coherent (confirms action table rules done h) =
    set_to_confirmed-IsCoherent action table rules registry done coherent h
Step-IsCoherent registry _ coherent (unlinks table rules after h) =
    unlink-IsCoherent table rules registry after coherent h

-- Whatever operations on the rules that raise no exception follow each other, `_register_hook` at the
-- start of a server included, the classes of the models stay coherent, whatever classes they inherit
-- from: a method is patched on a class at most once, whatever rules there are on its model, the class
-- has the mark itself exactly when it has the patch, and the `origin` is no patch of another class.
pub Reach-IsCoherent :
    (first registry : Registry) → IsCoherent first → Reach first registry → IsCoherent registry
Reach-IsCoherent first _ coherent start = coherent
Reach-IsCoherent first _ coherent (next registry after reached step) =
    Step-IsCoherent registry after (Reach-IsCoherent first registry coherent reached) step
