-- ===== src/StatementImport.antt =====
-- The import of bank statements (account_statement_import_file/wizard/account_statement_import.py and
-- account_statement_import_base/models/account_journal.py). What the file parser and the searches in
-- the tables of Odoo give are arguments; amounts are whole numbers of the smallest unit.
pub mod Matching
pub mod Creation
pub mod Import
mod Tests
use Prim.Native.String.{String, ◌++◌ as str_append}
use text.Mathlib.Text.{◌==◌ as str_eq}
use others_addons.Base.{
  ℕ, Bool, true, false, not, ◌&&◌, ◌||◌, List, [], ◌∷◌, Option, none, some, ℤ, if◌then◌else◌, ◌==◌,
}

-- The `UserError`s, by their texts, and the one of the constraint on `unique_import_id`.
pub data ImportError : Type 0 where
  unsupported_format : ImportError
  invalid_result : ImportError
  missing_currency : ImportError
  no_such_currency : ImportError
  no_journal_selected : ImportError
  other_journal_selected : ImportError
  account_on_no_journal : ImportError
  no_such_account : ImportError
  other_currency : ImportError
  no_default_account : ImportError
  missing_payment_ref : ImportError
  imported_only_once : ImportError
  nothing_imported : ImportError

pub data Result (A : Type 0) : Type 0 where
  raised : ImportError → Result A
  returned : A → Result A

infixl 1 ◌>>=◌
abbrev pub ◌>>=◌ : {A B : Type 0} → Result A → (A → Result B) → Result B
raised e >>= f = raised e
returned a >>= f = f a

-- `lvals`: what is missing or empty is none, a payment reference is a text that may be empty, and a
-- sequence of 0 is not set.
pub record Transaction : Type 0 where
  pub payment_ref : String
  pub amount : ℤ
  pub unique_import_id : Option String
  pub account_number : Option String
  pub partner_id : Option ℕ
  pub journal_id : Option ℕ
  pub sequence : ℕ

-- `st_vals`
pub record Statement : Type 0 where
  pub balance_start : Option ℤ
  pub journal_id : Option ℕ
  pub transactions : List Transaction

-- `id_text` is the id as it stands in a text.
pub record Journal : Type 0 where
  pub id : ℕ
  pub id_text : String
  pub currency : Option ℕ
  pub has_default_account : Bool

-- What the parser gives for one statement of the file.
pub data Parsed : Type 0 where
  not_a_tuple : Parsed
  parsed : Option String → Option String → List Statement → Parsed

-- The rest of Odoo: `_match_currency`'s search, `sanitize_account_number`, the bank journal with an
-- account number, whether a bank account of the company has it, the journal of the context, the
-- currency of the company, and the partner in `_statement_line_import_speeddict`.
pub record Odoo : Type 0 where
  pub find_currency : String → Option ℕ
  pub sanitize : String → String
  pub find_journal : String → Option Journal
  pub has_bank_account : String → Bool
  pub selected_journal : Option Journal
  pub company_currency : ℕ
  pub partner_of : String → Option ℕ

-- `_check_parsed_data`: whether a statement has a transaction.
unfoldable pub check_parsed_data : List Statement → Bool
check_parsed_data [] = false
check_parsed_data (statement ∷ statements) =
    let rest = check_parsed_data statements in
    let here = elim statement.transactions as (λ l. Bool) [
      | [] ↦ false
      | transaction ∷ transactions ↦ true
    ] in
    here || rest

abbrev is_empty_text : String → Bool
is_empty_text t = str_eq t ""

-- `_statement_line_import_update_unique_import_id`
unfoldable pub update_unique_import_id :
    Odoo → Journal → Option String → Option String → Option String
update_unique_import_id odoo journal account none = none
update_unique_import_id odoo journal none (some id) =
    some (str_append journal.id_text (str_append "-" id))
update_unique_import_id odoo journal (some account) (some id) =
    let number = odoo.sanitize account in
    let rest = str_append journal.id_text (str_append "-" id) in
    some (if is_empty_text number then rest else str_append number (str_append "-" rest))

-- `_statement_line_import_update_hook`: the partner by the account number.
unfoldable pub update_hook : Odoo → Transaction → Transaction
update_hook odoo transaction = elim transaction.account_number [
  | none ↦ transaction
  | some account ↦ record transaction {
    account_number = some (odoo.sanitize account);
    partner_id = elim transaction.partner_id [
      | none ↦ odoo.partner_of (odoo.sanitize account)
      | some partner ↦ some partner
    ];
  }
]

unfoldable pub complete_transaction :
    Odoo → Journal → Option String → Transaction → Result Transaction
unfolding update_hook
complete_transaction odoo journal account transaction =
    let identified : Transaction = record transaction {
      journal_id = some journal.id;
      unique_import_id = update_unique_import_id odoo journal account transaction.unique_import_id;
    } in
    let completed = update_hook odoo identified in
    if is_empty_text completed.payment_ref then raised missing_payment_ref else returned completed

unfoldable pub complete_transactions :
    Odoo → Journal → Option String → List Transaction → Result (List Transaction)
unfolding complete_transaction
complete_transactions odoo journal account [] = returned []
complete_transactions odoo journal account (transaction ∷ transactions) = do
  completed ← complete_transaction odoo journal account transaction
  rest ← complete_transactions odoo journal account transactions
  returned (completed ∷ rest)

-- `_complete_stmts_vals`
unfoldable pub complete_statements :
    Odoo → Journal → Option String → List Statement → Result (List Statement)
unfolding complete_transactions
complete_statements odoo journal account [] = returned []
complete_statements odoo journal account (statement ∷ statements) = do
  transactions ← complete_transactions odoo journal account statement.transactions
  rest ← complete_statements odoo journal account statements
  let completed : Statement = record statement {
    journal_id = some journal.id;
    transactions = transactions;
  }
  returned (completed ∷ rest)
