-- ===== src/AuditLog/Rules/Sound.antt =====
-- The methods of a class are patched once, and are marked when they are
-- (auditlog/models/auditlog_rule.py).

use others_addons.Base.{
  ℕ, ◌≡◌, refl, some-injective, bind-some, ap, ◌∙◌, sym, ◌⊎◌, inl, inr, true, false, not, ◌&&◌,
  List, [], ◌∷◌, none, some, arith, Bool-cases, if_true, if_false, subst,
}
use others_addons.AuditLog.Lines.{LogType}
use others_addons.AuditLog.Logs.{Method}
use others_addons.AuditLog.Rules.{
  Rule, Impl, inherited, patched, ModelClass, Above, impl_or, impl_of, is_marked, same_method,
  logs_method, has_origin, patch_method, patch_step, unpatch_method, delete_patch, revert_step,
  through, through_each,
}

-- A method that the class marks is patched on it once, over a method that is not patched, and the
-- others are those that the class inherits.
abbrev pub IsSound : ModelClass → Type 0
IsSound cls =
    (m : Method)
    → ((cls.ruled m ≡ true) × (i : ℕ) × (t : LogType) × (cls.own m ≡ some (patched i t inherited)))
      ⊎ ((cls.ruled m ≡ false) × (cls.own m ≡ none))

-- What is not marked above is not patched above.
abbrev pub IsAbove : Above → Type 0
IsAbove above = (m : Method) → above.marked m ≡ false → above.impl m ≡ inherited

patch_method-IsSound :
    (rule : Rule) (above : Above) (m : Method) (cls : ModelClass)
    → IsAbove above
    → IsSound cls
    → is_marked above cls m ≡ false
    → IsSound (patch_method rule above m cls)
unfolding patch_method
patch_method-IsSound rule above m cls clear sound fresh n = elim (Bool-cases (same_method n m)) [
  | inl same ↦
      let bare : cls.own m ≡ none = elim (sound m) [
        | inl (marked, i, t, e) ↦ absurd (ground (arith, fresh, marked))
        | inr (unmarked, e) ↦ e
      ] in
      inl (
        if_true _ _ _ same,
        rule.id,
        rule.log_type,
        if_true _ _ _ same
            ∙ ap (λ o. some (patched rule.id rule.log_type (impl_or o (above.impl m)))) bare
            ∙ ap (λ i. some (patched rule.id rule.log_type i)) (clear m (ground (arith, fresh))),
      )
  | inr other ↦ elim (sound n) [
    | inl (marked, i, t, e) ↦ inl (if_false _ _ _ other ∙ marked, i, t, if_false _ _ _ other ∙ e)
    | inr (unmarked, e) ↦ inr (if_false _ _ _ other ∙ unmarked, if_false _ _ _ other ∙ e)
  ]
]

unpatch_method-IsSound :
    (m : Method) (cls : ModelClass) → IsSound cls → IsSound (unpatch_method m cls)
unfolding unpatch_method
unpatch_method-IsSound m cls sound n = elim (Bool-cases (same_method n m)) [
  | inl same ↦ inr (if_true _ _ _ same, if_true _ _ _ same)
  | inr other ↦ elim (sound n) [
    | inl (marked, i, t, e) ↦ inl (if_false _ _ _ other ∙ marked, i, t, if_false _ _ _ other ∙ e)
    | inr (unmarked, e) ↦ inr (if_false _ _ _ other ∙ unmarked, if_false _ _ _ other ∙ e)
  ]
]

pub patch_step-IsSound :
    (rule : Rule) (above : Above)
    → IsAbove above
    → (m : Method) (cls : ModelClass) → IsSound cls
    → IsSound (patch_step rule above m cls)
unfolding patch_step
patch_step-IsSound rule above clear m cls sound =
    elim (Bool-cases (logs_method rule m && not (is_marked above cls m))) [
      | inr kept ↦ subst IsSound (sym (if_false _ _ _ kept)) sound
      | inl patches ↦
          subst IsSound (sym (if_true _ _ _ patches))
            (patch_method-IsSound rule above m cls clear sound (ground (arith, patches)))
    ]

-- The step of a method that raises nothing: it deletes the patch of the class, or there is none to
-- delete, and it changes nothing.
pub data Reverted (rule : Rule) (m : Method) (cls : ModelClass) : ModelClass → Type 0 where
  deleted : logs_method rule m ≡ true → Reverted rule m cls (unpatch_method m cls)
  not_logged : logs_method rule m ≡ false → Reverted rule m cls cls
  bare : cls.own m ≡ none → cls.ruled m ≡ false → Reverted rule m cls cls

delete_patch-some :
    (m : Method) (cls : ModelClass) (impl : Impl)
    → cls.own m ≡ some impl
    → cls.ruled m ≡ true
    → delete_patch m cls ≡ some (unpatch_method m cls)
unfolding delete_patch
delete_patch-some m cls impl e marked = rw (e, delete_patch) (if_true _ _ _ marked)

delete_patch-none : (m : Method) (cls : ModelClass) → cls.own m ≡ none → delete_patch m cls ≡ none
unfolding delete_patch
delete_patch-none m cls e = rw (e, delete_patch) refl

pub revert_step-Reverted :
    (rule : Rule) (above : Above) (m : Method) (cls after : ModelClass)
    → IsSound cls
    → revert_step rule above m cls ≡ some after
    → Reverted rule m cls after
unfolding revert_step
revert_step-Reverted rule above m cls after sound h =
    elim (Bool-cases (logs_method rule m && has_origin (impl_of above cls m))) [
      | inr kept ↦
          let same : cls ≡ after = some-injective cls after (sym (if_false _ _ _ kept) ∙ h) in
          elim (sound m) [
            | inl (marked, i, t, e) ↦ subst (Reverted rule m cls) same (
                not_logged
                  (ground (arith, kept, ap (λ o. has_origin (impl_or o (above.impl m))) e)))
            | inr (unmarked, e) ↦ subst (Reverted rule m cls) same (bare e unmarked)
          ]
      | inl reverts ↦
          let h2 : delete_patch m cls ≡ some after = sym (if_true _ _ _ reverts) ∙ h in
          elim (sound m) [
            | inl (marked, i, t, e) ↦
                subst (Reverted rule m cls)
                  (some-injective _ _ (sym (delete_patch-some m cls _ e marked) ∙ h2))
                  (deleted (ground (arith, reverts)))
            | inr (unmarked, e) ↦ absurd (ground (arith, sym (delete_patch-none m cls e) ∙ h2))
          ]
    ]

pub Reverted-IsSound :
    (rule : Rule) (m : Method) (cls after : ModelClass)
    → IsSound cls
    → Reverted rule m cls after
    → IsSound after
Reverted-IsSound rule m cls _ sound (deleted logged) = unpatch_method-IsSound m cls sound
Reverted-IsSound rule m cls _ sound (not_logged e) = sound
Reverted-IsSound rule m cls _ sound (bare e f) = sound

pub through_each-IsSound :
    (rule : Rule) (above : Above) (methods : List Method) (cls after : ModelClass)
    → IsSound cls
    → through_each (revert_step rule above) methods cls ≡ some after
    → IsSound after
through_each-IsSound rule above [] cls after sound h =
    subst IsSound (some-injective cls after h) sound
through_each-IsSound rule above (m ∷ methods) cls after sound h =
    let (next, e, h2) =
      bind-some (revert_step rule above m cls) (through_each (revert_step rule above) methods) after
        h in
    through_each-IsSound rule above methods next after
      (Reverted-IsSound rule m cls next sound (revert_step-Reverted rule above m cls next sound e))
      h2

pub through-IsSound :
    (step : Method → ModelClass → ModelClass)
    → ((m : Method) (cls : ModelClass) → IsSound cls → IsSound (step m cls))
    → (methods : List Method) (cls : ModelClass) → IsSound cls
    → IsSound (through step methods cls)
through-IsSound step keeps [] cls sound = sound
through-IsSound step keeps (m ∷ methods) cls sound =
    through-IsSound step keeps methods (step m cls) (keeps m cls sound)
