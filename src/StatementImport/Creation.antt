-- ===== src/StatementImport/Creation.antt =====
-- `_create_bank_statements` (account_statement_import_file/wizard/account_statement_import.py).
pub mod Known
pub mod Rows
pub mod Steps
pub mod Created
pub mod Balance
use Prim.Native.String.{String}
use text.Mathlib.Text.{◌==◌ as str_eq}
use others_addons.Base.{
  ℕ, zero, suc, ◌+◌, Bool, true, false, not, ◌&&◌, ◌||◌, List, [], ◌∷◌, ◌++◌, Option, none, some, ℤ,
  ◌+ℤ◌, if◌then◌else◌, ◌==◌, contains, add as add_to_set, length, has,
}
use others_addons.StatementImport.{
  ImportError, imported_only_once, Result, raised, returned, ◌>>=◌, Transaction, Statement,
}

-- A row of `account.bank.statement.line`: its id is the number of rows before it.
pub record Line : Type 0 where
  pub values : Transaction
  pub statement_id : ℕ

-- The tables of the statements and their lines, and the journals whose source is this import.
pub record Db : Type 0 where
  pub lines : List Line
  pub statements : List Statement
  pub file_journals : List ℕ

-- `result`: the new statements, and how many transactions each notification tells of.
pub record Feedback : Type 0 where
  pub statement_ids : List ℕ
  pub notifications : List ℕ

abbrev pub same_id : String → Option String → Bool
same_id id none = false
same_id id (some other) = str_eq id other

-- The search for a line by its `unique_import_id`; the lines have the ids from the first on.
unfoldable pub find_line : String → ℕ → List Line → Option ℕ
find_line id first [] = none
find_line id first (line ∷ lines) =
    let rest = find_line id (suc first) lines in
    if same_id id line.values.unique_import_id then some first else rest

-- `existing_line`
unfoldable pub existing_line : Db → Transaction → Option ℕ
existing_line db transaction = elim transaction.unique_import_id [
  | none ↦ none
  | some id ↦ find_line id 0 db.lines
]

-- What the loop over the transactions of a statement collects.
pub record Sorting : Type 0 where
  pub to_create : List Transaction
  pub existing : List ℕ
  pub balance : Option ℤ

abbrev add_amount : ℤ → Option ℤ → Option ℤ
add_amount amount none = none
add_amount amount (some balance) = some (balance +ℤ amount)

abbrev pub sort_one : Option ℕ → Transaction → Sorting → Sorting
sort_one none transaction sorting = record sorting {
  to_create = sorting.to_create ++ transaction ∷ [];
}
sort_one (some line) transaction sorting = record sorting {
  existing = add_to_set line sorting.existing;
  balance = add_amount transaction.amount sorting.balance;
}

unfoldable pub sort_transactions : Db → List Transaction → Sorting → Sorting
unfolding existing_line
sort_transactions db [] sorting = sorting
sort_transactions db (transaction ∷ transactions) sorting =
    sort_transactions db transactions (sort_one (existing_line db transaction) transaction sorting)

abbrev pub number : ℕ → List Transaction → List Transaction
number seq [] = []
number seq (transaction ∷ transactions) =
    record transaction { sequence = seq } ∷ number (suc seq) transactions

-- The sequences are set unless the first one is.
unfoldable pub set_sequences : List Transaction → List Transaction
set_sequences [] = []
set_sequences (first ∷ transactions) =
    if first.sequence == 0 then number 1 (first ∷ transactions) else first ∷ transactions

abbrev pub lines_of : ℕ → List Transaction → List Line
lines_of statement [] = []
lines_of statement (transaction ∷ transactions) =
    record { values = transaction; statement_id = statement } ∷ lines_of statement transactions

-- Whether a `unique_import_id` stands twice among the transactions, or in the table.
unfoldable pub breaks_constraint : List Line → List Transaction → Bool
breaks_constraint lines [] = false
breaks_constraint lines (transaction ∷ transactions) =
    let more = lines ++ record { values = transaction; statement_id = 0 } ∷ [] in
    let here = elim transaction.unique_import_id as (λ o. Bool) [
      | none ↦ false
      | some id ↦ elim (find_line id 0 lines) as (λ o. Bool) [ none ↦ false | some line ↦ true ]
    ] in
    here || breaks_constraint more transactions

-- The creation of a statement with its lines.
unfoldable pub create_statement : Statement → Db → Result Db
create_statement statement db =
    let id = length db.statements in
    let created : Db = record db {
      lines = db.lines ++ lines_of id statement.transactions;
      statements = db.statements ++ statement ∷ [];
    } in
    if breaks_constraint db.lines statement.transactions
    then raised imported_only_once
    else returned created

abbrev pub is_nothing : List Transaction → Bool
is_nothing [] = true
is_nothing (transaction ∷ transactions) = false

-- The loop over the statements: the tables, the new statements and the existing lines.
unfoldable pub create_loop : List Statement → Db → List ℕ → List ℕ → Result (Db × List ℕ × List ℕ)
unfolding sort_transactions set_sequences create_statement
create_loop [] db ids existing = returned (db, ids, existing)
create_loop (statement ∷ statements) db ids existing =
    let start : Sorting = record {
      to_create = [];
      existing = existing;
      balance = statement.balance_start;
    } in
    let sorted = sort_transactions db statement.transactions start in
    let new : Statement = record statement {
      balance_start = sorted.balance;
      transactions = set_sequences sorted.to_create;
    } in
    let skipped = create_loop statements db ids sorted.existing in
    let created = create_statement new db >>= (λ after.
      create_loop statements after (ids ++ length db.statements ∷ []) sorted.existing) in
    if is_nothing sorted.to_create then skipped else created

abbrev notify_ignored : ℕ → List ℕ → List ℕ
notify_ignored zero notifications = notifications
notify_ignored (suc n) notifications = notifications ++ suc n ∷ []

-- `return False` without new statements, and the feedback with them.
abbrev pub tell : List ℕ → List ℕ → Feedback → Feedback
tell [] existing feedback = feedback
tell (id ∷ ids) existing feedback = record {
  statement_ids = feedback.statement_ids ++ id ∷ ids;
  notifications = notify_ignored (length existing) feedback.notifications;
}

unfoldable pub create_bank_statements : List Statement → Db → Feedback → Result (Db × Feedback)
unfolding create_loop
create_bank_statements statements db feedback = do
  done ← create_loop statements db [] []
  returned (done.0, tell done.1 done.2 feedback)
