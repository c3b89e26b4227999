-- ===== src/StatementImport/Creation/Balance.antt =====
-- The balances of the statements that are created
-- (account_statement_import_file/wizard/account_statement_import.py).
use mathlib.Core.List.{append-nil, append_assoc}
use others_addons.Base.{
  ℕ, suc, ◌≡◌, ◌≢◌, refl, ap, ◌∙◌, sym, inl, inr, List, [], ◌∷◌, ◌++◌, Option, none, some, ℤ, pos,
  ◌+ℤ◌, +ℤ-comm, +ℤ-assoc, +ℤ-zero, if_true, if_false, arith, Bool-cases, length, ◌==◌,
}
use others_addons.StatementImport.{returned, Transaction, Statement}
use others_addons.StatementImport.Creation.{
  Db, Feedback, existing_line, Sorting, add_amount, sort_one, sort_transactions, number,
  set_sequences, breaks_constraint, create_statement, create_loop, create_bank_statements,
}
use others_addons.StatementImport.Creation.Steps.{
  bind-returned, returned-injective, List-cases, sorting_of, new_statement, create_loop-skip,
  create_loop-new,
}

-- The sum of the amounts.
abbrev pub total : List Transaction → ℤ
total [] = pos 0
total (transaction ∷ transactions) = transaction.amount +ℤ total transactions

-- The balance after the transactions of a statement.
abbrev pub closing : Statement → Option ℤ
closing statement = add_amount (total statement.transactions) statement.balance_start

total-append :
    (l : List Transaction) (t : Transaction) → total (l ++ t ∷ []) ≡ (total l +ℤ t.amount)
total-append [] t = +ℤ-comm t.amount (pos 0)
total-append (u ∷ l) t =
    ap (λ z. u.amount +ℤ z) (total-append l t) ∙ sym (+ℤ-assoc u.amount (total l) t.amount)

total-number : (seq : ℕ) (l : List Transaction) → total (number seq l) ≡ total l
total-number seq [] = refl
total-number seq (t ∷ l) = ap (λ z. t.amount +ℤ z) (total-number (suc seq) l)

total-set_sequences : (l : List Transaction) → total (set_sequences l) ≡ total l
unfolding set_sequences
total-set_sequences [] = refl
total-set_sequences (t ∷ l) = elim (Bool-cases (t.sequence == 0)) [
  | inl unset ↦ ap total (if_true _ _ _ unset) ∙ total-number 1 (t ∷ l)
  | inr given ↦ ap total (if_false _ _ _ given)
]

add_amount-twice : (a b : ℤ) (o : Option ℤ) → add_amount a (add_amount b o) ≡ add_amount (b +ℤ a) o
add_amount-twice a b none = refl
add_amount-twice a b (some z) = ap some (+ℤ-assoc z b a)

add_amount-zero : (o : Option ℤ) → add_amount (pos 0) o ≡ o
add_amount-zero none = refl
add_amount-zero (some z) = ap some (+ℤ-zero z)

-- The balance after the transactions that are to be created so far.
abbrev balance_of : Sorting → Option ℤ
balance_of sorting = add_amount (total sorting.to_create) sorting.balance

balance_of-sort_one :
    (line : Option ℕ) (t : Transaction) (sorting : Sorting)
    → balance_of (sort_one line t sorting) ≡ add_amount t.amount (balance_of sorting)
balance_of-sort_one none t sorting =
    ap (λ z. add_amount z sorting.balance) (total-append sorting.to_create t)
    ∙ sym (add_amount-twice t.amount (total sorting.to_create) sorting.balance)
balance_of-sort_one (some line) t sorting =
    add_amount-twice (total sorting.to_create) t.amount sorting.balance
    ∙ ap (λ z. add_amount z sorting.balance) (+ℤ-comm t.amount (total sorting.to_create))
    ∙ sym (add_amount-twice t.amount (total sorting.to_create) sorting.balance)

balance_of-sort_transactions :
    (db : Db) (transactions : List Transaction) (sorting : Sorting)
    → balance_of (sort_transactions db transactions sorting)
      ≡ add_amount (total transactions) (balance_of sorting)
unfolding sort_transactions
balance_of-sort_transactions db [] sorting = sym (add_amount-zero (balance_of sorting))
balance_of-sort_transactions db (t ∷ transactions) sorting =
    balance_of-sort_transactions db transactions (sort_one (existing_line db t) t sorting)
    ∙ ap (add_amount (total transactions)) (balance_of-sort_one (existing_line db t) t sorting)
    ∙ add_amount-twice (total transactions) t.amount (balance_of sorting)

closing-new_statement :
    (db : Db) (existing : List ℕ) (statement : Statement)
    → closing (new_statement db existing statement) ≡ closing statement
closing-new_statement db existing statement =
    let start : Sorting = record {
      to_create = [];
      existing = existing;
      balance = statement.balance_start;
    } in
    ap (λ z. add_amount z (sorting_of db existing statement).balance)
      (total-set_sequences (sorting_of db existing statement).to_create)
    ∙ balance_of-sort_transactions db statement.transactions start
    ∙ ap (add_amount (total statement.transactions)) (add_amount-zero statement.balance_start)

-- The transactions that the table has no line for.
abbrev pub unknown : Db → List Transaction → List Transaction
unknown db [] = []
unknown db (t ∷ transactions) =
    let rest = unknown db transactions in
    elim (existing_line db t) [ none ↦ t ∷ rest | some line ↦ rest ]

to_create-sort_one :
    (line : Option ℕ) (t : Transaction) (sorting : Sorting) (rest : List Transaction)
    → (sort_one line t sorting).to_create ++ rest
      ≡ sorting.to_create
        ++ (elim line as (λ o. List Transaction) [ none ↦ t ∷ rest | some l ↦ rest ])
to_create-sort_one none t sorting rest = append_assoc sorting.to_create (t ∷ []) rest
to_create-sort_one (some line) t sorting rest = refl

to_create-unknown :
    (db : Db) (transactions : List Transaction) (sorting : Sorting)
    → (sort_transactions db transactions sorting).to_create
      ≡ sorting.to_create ++ unknown db transactions
unfolding sort_transactions
to_create-unknown db [] sorting = sym (append-nil sorting.to_create)
to_create-unknown db (t ∷ transactions) sorting =
    to_create-unknown db transactions (sort_one (existing_line db t) t sorting)
    ∙ to_create-sort_one (existing_line db t) t sorting (unknown db transactions)

-- The statements of a file and the rows that are created for them, in the same order, from the tables
-- that there are before each statement.
pub data Balances : Db → List Statement → List Statement → Type 0 where
  nothing : {db : Db} → Balances db [] []
  skipped :
      {db : Db} {statement : Statement} {statements rows : List Statement}
      → unknown db statement.transactions ≡ []
      → Balances db statements rows
      → Balances db (statement ∷ statements) rows
  created :
      {db : Db} {statement row : Statement} {statements rows : List Statement} (after : Db)
      → closing row ≡ closing statement
      → row.journal_id ≡ statement.journal_id
      → row.transactions ≡ set_sequences (unknown db statement.transactions)
      → unknown db statement.transactions ≢ []
      → create_statement row db ≡ returned after
      → Balances after statements rows
      → Balances db (statement ∷ statements) (row ∷ rows)

create_statement-statements :
    (statement : Statement) (db after : Db)
    → create_statement statement db ≡ returned after
    → after.statements ≡ db.statements ++ statement ∷ []
unfolding create_statement
create_statement-statements statement db after h =
    elim (Bool-cases (breaks_constraint db.lines statement.transactions)) [
      | inl twice ↦ absurd (ground (arith, sym (if_true _ _ _ twice) ∙ h))
      | inr once ↦
          ap (λ d. Db.statements d) (sym (returned-injective _ _ (sym (if_false _ _ _ once) ∙ h)))
    ]

create_loop-Balances :
    (statements : List Statement) (db : Db) (ids existing : List ℕ) (done : Db × List ℕ × List ℕ)
    → create_loop statements db ids existing ≡ returned done
    → (rows : List Statement) × ((done.0).statements ≡ db.statements ++ rows)
      × Balances db statements rows
unfolding create_loop
create_loop-Balances [] db ids existing done h = (
  [],
  ap (λ d. Db.statements d.0) (sym (returned-injective _ _ h)) ∙ sym (append-nil db.statements),
  nothing,
)
create_loop-Balances (statement ∷ statements) db ids existing done h =
    let sorting = sorting_of db existing statement in
    let all : sorting.to_create ≡ unknown db statement.transactions =
      to_create-unknown db statement.transactions
        (record { to_create = []; existing = existing; balance = statement.balance_start }) in
    elim (List-cases sorting.to_create) [
      | inl none_new ↦
          let (rows, more, balances) =
            create_loop-Balances statements db ids sorting.existing done
              (sym (create_loop-skip statement statements db ids existing none_new) ∙ h) in
          (rows, more, skipped (sym all ∙ none_new) balances)
      | inr (t, rest, some_new) ↦
          let row = new_statement db existing statement in
          let (after, made, h2) =
            bind-returned (create_statement row db) _ done
              (sym (create_loop-new statement statements db ids existing t rest some_new) ∙ h) in
          let (rows, more, balances) =
            create_loop-Balances statements after (ids ++ length db.statements ∷ [])
              sorting.existing done h2 in
          (
            row ∷ rows,
            more
                ∙ ap (λ l. l ++ rows) (create_statement-statements row db after made)
                ∙ append_assoc db.statements (row ∷ []) rows,
            created after (closing-new_statement db existing statement) refl (ap set_sequences all)
                (λ e. absurd (ground (arith, sym some_new ∙ all ∙ e))) made balances,
          )
    ]

-- When the statements of a file are created, the rows that are added are those of its statements, in
-- their order, without just those statements all of whose transactions have a line already when their turn
-- comes. A row has exactly the other transactions of its statement, numbered if the first one has no
-- sequence, the journal of the statement, and a balance after its transactions that is the one of the statement of the file.
pub create_bank_statements-Balances :
    (statements : List Statement) (db : Db) (feedback : Feedback) (done : Db × Feedback)
    → create_bank_statements statements db feedback ≡ returned done
    → (rows : List Statement) × ((done.0).statements ≡ db.statements ++ rows)
      × Balances db statements rows
unfolding create_bank_statements
create_bank_statements-Balances statements db feedback done h =
    let (looped, e, h2) = bind-returned (create_loop statements db [] []) _ done h in
    let (rows, more, balances) = create_loop-Balances statements db [] [] looped e in
    (rows, ap (λ d. Db.statements d.0) (sym (returned-injective _ _ h2)) ∙ more, balances)
