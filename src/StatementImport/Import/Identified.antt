-- ===== src/StatementImport/Import/Identified.antt =====
-- The completed transactions of a file have ids if the parsed ones have
-- (account_statement_import_file/wizard/account_statement_import.py).
use Prim.Native.String.{String}
use others_addons.Base.{
  ◌≡◌, refl, ap, subst, ◌∙◌, sym, inl, inr, List, [], ◌∷◌, Option, none, some, if_true, if_false,
  arith, Bool-cases, Option-cases, All,
}
use others_addons.StatementImport.{
  returned, Transaction, Statement, Journal, Odoo, update_unique_import_id, update_hook,
  complete_transaction, complete_transactions, complete_statements, is_empty_text,
}
use others_addons.StatementImport.Creation.Steps.{bind-returned, returned-injective}
use others_addons.StatementImport.Creation.Created.{AllIdentified}
use others_addons.StatementImport.Creation.Rows.{IsIdentified}

update_unique_import_id-some :
    (odoo : Odoo) (journal : Journal) (account : Option String) (id : String)
    → (new_id : String) × (update_unique_import_id odoo journal account (some id) ≡ some new_id)
unfolding update_unique_import_id
update_unique_import_id-some odoo journal none id = (_, refl)
update_unique_import_id-some odoo journal (some account) id = (_, refl)

update_hook-id :
    (odoo : Odoo) (t : Transaction) → (update_hook odoo t).unique_import_id ≡ t.unique_import_id
unfolding update_hook
update_hook-id odoo t = elim (Option-cases t.account_number) [
  | inl missing ↦ rw (missing, update_hook) refl
  | inr (account, given) ↦ rw (given, update_hook) refl
]

complete_transaction-IsIdentified :
    (odoo : Odoo) (journal : Journal) (account : Option String) (t u : Transaction)
    → complete_transaction odoo journal account t ≡ returned u
    → IsIdentified t
    → IsIdentified u
unfolding complete_transaction
complete_transaction-IsIdentified odoo journal account t u h (id, e) =
    let identified : Transaction = record t {
      journal_id = some journal.id;
      unique_import_id = update_unique_import_id odoo journal account t.unique_import_id;
    } in
    let completed = update_hook odoo identified in
    let (new_id, named) = update_unique_import_id-some odoo journal account id in
    elim (Bool-cases (is_empty_text completed.payment_ref)) [
      | inl empty ↦ absurd (ground (arith, sym (if_true _ _ _ empty) ∙ h))
      | inr given ↦
          let same : completed ≡ u = returned-injective _ _ (sym (if_false _ _ _ given) ∙ h) in
          (
            new_id,
            ap (λ x. Transaction.unique_import_id x) (sym same)
                ∙ update_hook-id odoo identified
                ∙ ap (update_unique_import_id odoo journal account) e
                ∙ named,
          )
    ]

complete_transactions-IsIdentified :
    (odoo : Odoo) (journal : Journal) (account : Option String) (ts us : List Transaction)
    → complete_transactions odoo journal account ts ≡ returned us
    → All IsIdentified ts
    → All IsIdentified us
unfolding complete_transactions
complete_transactions-IsIdentified odoo journal account [] us h named =
    subst (λ l. All IsIdentified l) (returned-injective _ _ h) tt
complete_transactions-IsIdentified odoo journal account (t ∷ ts) us h (first, named) =
    let (u, e, h2) = bind-returned (complete_transaction odoo journal account t) _ us h in
    let (rest, d, h3) = bind-returned (complete_transactions odoo journal account ts) _ us h2 in
    subst (λ l. All IsIdentified l) (returned-injective _ _ h3)
      (
        complete_transaction-IsIdentified odoo journal account t u e first,
        complete_transactions-IsIdentified odoo journal account ts rest d named,
      )

pub complete_statements-AllIdentified :
    (odoo : Odoo) (journal : Journal) (account : Option String)
    (statements completed : List Statement)
    → complete_statements odoo journal account statements ≡ returned completed
    → AllIdentified statements
    → AllIdentified completed
unfolding complete_statements
complete_statements-AllIdentified odoo journal account [] completed h named =
    subst AllIdentified (returned-injective _ _ h) tt
complete_statements-AllIdentified odoo journal account (s ∷ statements) completed h (first, named) =
    let (transactions, e, h2) =
      bind-returned (complete_transactions odoo journal account s.transactions) _ completed h in
    let (rest, d, h3) =
      bind-returned (complete_statements odoo journal account statements) _ completed h2 in
    subst AllIdentified (returned-injective _ _ h3) (
      complete_transactions-IsIdentified odoo journal account s.transactions transactions e first,
      complete_statements-AllIdentified odoo journal account statements rest d named,
    )
