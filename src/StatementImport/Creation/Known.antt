-- ===== src/StatementImport/Creation/Known.antt =====
-- Transactions that are known are not created again
-- (account_statement_import_file/wizard/account_statement_import.py).
use Prim.Native.String.{String}
use others_addons.Base.{
  ℕ, ◌≡◌, ◌≢◌, refl, ap, ◌∙◌, inl, inr, List, [], ◌∷◌, none, some, Option-cases, All,
}
use others_addons.StatementImport.{returned, Transaction, Statement}
use others_addons.StatementImport.Creation.{
  Db, Feedback, find_line, existing_line, Sorting, sort_one, sort_transactions, create_loop,
  create_bank_statements,
}

-- The table has a line with the id.
abbrev pub Knows : Db → String → Type 0
Knows db id = find_line id 0 db.lines ≢ none

-- A transaction has an id, and the table a line with it.
abbrev pub IsKnown : Db → Transaction → Type 0
IsKnown db transaction = (id : String) × (transaction.unique_import_id ≡ some id) × (Knows db id)

abbrev pub AllKnown : Db → List Statement → Type 0
AllKnown db statements = All (λ s. All (IsKnown db) s.transactions) statements

-- Only lines are added.
abbrev pub Extends : Db → Db → Type 0
Extends db after = (id : String) → Knows db id → Knows after id

sort_transactions-known :
    (db : Db) (transactions : List Transaction) (sorting : Sorting)
    → All (IsKnown db) transactions
    → (sort_transactions db transactions sorting).to_create ≡ sorting.to_create
unfolding sort_transactions existing_line
sort_transactions-known db [] sorting known = refl
sort_transactions-known db (transaction ∷ transactions) sorting (first, known) =
    let (id, named, found) = first in
    elim (Option-cases (find_line id 0 db.lines)) [
      | inl missing ↦ absurd (found missing)
      | inr (line, e) ↦
          let here : existing_line db transaction ≡ some line = rw named e in
          sort_transactions-known db transactions
            (sort_one (existing_line db transaction) transaction sorting) known
          ∙ ap (λ o. (sort_one o transaction sorting).to_create) here
    ]

pub create_loop-known :
    (statements : List Statement) (db : Db) (ids existing : List ℕ)
    → AllKnown db statements
    → (seen : List ℕ) × (create_loop statements db ids existing ≡ returned (db, ids, seen))
unfolding create_loop
create_loop-known [] db ids existing known = (existing, refl)
create_loop-known (statement ∷ statements) db ids existing (first, known) =
    let start : Sorting = record {
      to_create = [];
      existing = existing;
      balance = statement.balance_start;
    } in
    let nothing = sort_transactions-known db statement.transactions start first in
    let (seen, e) =
      create_loop-known statements db ids
        (sort_transactions db statement.transactions start).existing known in
    (seen, rw (nothing, create_loop) e)

pub create_bank_statements-known :
    (statements : List Statement) (db : Db) (feedback : Feedback)
    → AllKnown db statements
    → create_bank_statements statements db feedback ≡ returned (db, feedback)
unfolding create_bank_statements
create_bank_statements-known statements db feedback known =
    let (seen, e) = create_loop-known statements db [] [] known in rw e refl
