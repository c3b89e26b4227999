-- ===== src/AuditLog/Rules/Turns.antt =====
-- What the turn of a rule in `_revert_methods` takes away from a class
-- (auditlog/models/auditlog_rule.py).

use others_addons.Base.{
  bind-some, some-injective, ◌≡◌, refl, ap, ◌∙◌, sym, Bool, true, false, ◌&&◌, ◌||◌, List, [], ◌∷◌,
  none, some, if◌then◌else◌, arith, if_true,
}
use others_addons.AuditLog.Logs.{
  Method, create_method, read_method, write_method, unlink_method, export_data_method,
}
use others_addons.AuditLog.Rules.{
  Rule, ModelClass, Above, same_method, logs_method, unpatch_method, revert_step, through_each,
  all_methods,
}
use others_addons.AuditLog.Rules.Sound.{
  IsSound, Reverted, deleted, not_logged, bare, Reverted-IsSound, revert_step-Reverted,
}

abbrev pub has_method : Method → List Method → Bool
has_method n [] = false
has_method n (m ∷ methods) = same_method n m || has_method n methods

same_method-eq : (n m : Method) → same_method n m ≡ true → n ≡ m
same_method-eq create_method create_method h = refl
same_method-eq read_method read_method h = refl
same_method-eq write_method write_method h = refl
same_method-eq unlink_method unlink_method h = refl
same_method-eq export_data_method export_data_method h = refl
same_method-eq n m h = absurd (ground (arith, h))

if_and :
    {A : Type 0} (b l : Bool) (x y : A)
    → (b ≡ true → l ≡ true)
    → (if b then x else y) ≡ (if b && l then x else y)
if_and true l x y h = sym (if_true l x y (h refl))
if_and false l x y h = refl

if_idle : {A : Type 0} (b : Bool) (x y : A) → (b ≡ true → y ≡ x) → y ≡ (if b then x else y)
if_idle true x y h = h refl
if_idle false x y h = refl

if_or :
    {A : Type 0} (a b l : Bool) (x y : A)
    → (if b && l then x else (if a && l then x else y)) ≡ (if (a || b) && l then x else y)
if_or true true true x y = refl
if_or true true false x y = refl
if_or true false true x y = refl
if_or true false false x y = refl
if_or false true true x y = refl
if_or false true false x y = refl
if_or false false true x y = refl
if_or false false false x y = refl

-- What the methods of a class are when those with a flag of the rule are taken away.
abbrev pub Reverts : Rule → (Method → Bool) → ModelClass → ModelClass → Type 0
Reverts rule chosen cls after =
    (n : Method)
    → (after.own n ≡ (if chosen n && logs_method rule n then none else cls.own n))
      × (after.ruled n ≡ (if chosen n && logs_method rule n then false else cls.ruled n))

module _ (rule : Rule) where
  -- The turn of one method.
  Reverted-Reverts :
      (m : Method) (cls after : ModelClass)
      → Reverted rule m cls after
      → Reverts rule (λ n. same_method n m) cls after
  unfolding unpatch_method
  Reverted-Reverts m cls _ (deleted logged) n =
      let both : same_method n m ≡ true → logs_method rule n ≡ true =
        λ same. ap (logs_method rule) (same_method-eq n m same) ∙ logged in
      (if_and (same_method n m) _ _ _ both, if_and (same_method n m) _ _ _ both)
  Reverted-Reverts m cls _ (not_logged e) n =
      let never : same_method n m && logs_method rule n ≡ true → ⊥ = λ both.
        ground
          (arith, both, e, ap (logs_method rule) (same_method-eq n m (ground (arith, both)))) in
      (
        if_idle (same_method n m && logs_method rule n) _ _ (λ both. absurd (never both)),
        if_idle (same_method n m && logs_method rule n) _ _ (λ both. absurd (never both)),
      )
  Reverted-Reverts m cls _ (bare e f) n =
      let same : same_method n m && logs_method rule n ≡ true → n ≡ m =
        λ both. same_method-eq n m (ground (arith, both)) in
      (
        if_idle (same_method n m && logs_method rule n) _ _ (λ both. ap cls.own (same both) ∙ e),
        if_idle (same_method n m && logs_method rule n) _ _ (λ both. ap cls.ruled (same both) ∙ f),
      )

  pub through_each-Reverts :
      (above : Above) (methods : List Method) (cls after : ModelClass)
      → IsSound cls
      → through_each (revert_step rule above) methods cls ≡ some after
      → Reverts rule (λ n. has_method n methods) cls after
  through_each-Reverts above [] cls after sound h n =
      let same = some-injective cls after h in
      (ap (λ c. ModelClass.own c n) (sym same), ap (λ c. ModelClass.ruled c n) (sym same))
  through_each-Reverts above (m ∷ methods) cls after sound h n =
      let (next, e, h2) =
        bind-some (revert_step rule above m cls) (through_each (revert_step rule above) methods)
          after h in
      let turn = revert_step-Reverted rule above m cls next sound e in
      let (own, ruled) =
        through_each-Reverts above methods next after (Reverted-IsSound rule m cls next sound turn)
          h2 n in
      let (own_m, ruled_m) = Reverted-Reverts m cls next turn n in
      let l = logs_method rule n in
      let b = has_method n methods in
      let a = same_method n m in
      (
        own ∙ ap (λ x. if b && l then none else x) own_m ∙ if_or a b l none (cls.own n),
        ruled ∙ ap (λ x. if b && l then false else x) ruled_m ∙ if_or a b l false (cls.ruled n),
      )

pub all_methods_chosen : (n : Method) → has_method n all_methods ≡ true
all_methods_chosen create_method = refl
all_methods_chosen read_method = refl
all_methods_chosen write_method = refl
all_methods_chosen unlink_method = refl
all_methods_chosen export_data_method = refl
