-- ===== src/StatementImport/Tests.antt =====
-- A file with two statements (account_statement_import_file/wizard/account_statement_import.py).
use Prim.Native.String.{String}
use others_addons.Base.{
  ◌≡◌, refl, true, List, [], ◌∷◌, ◌++◌, Option, none, some, pos, length, contains,
  add as add_to_set,
}
use others_addons.StatementImport.{
  Result, raised, returned, nothing_imported, imported_only_once, Transaction, Statement, Journal,
  Parsed, parsed, Odoo, check_parsed_data, update_unique_import_id, complete_statements,
}
use others_addons.StatementImport.Matching.{match_currency, match_journal}
use others_addons.StatementImport.Creation.{
  Db, Feedback, existing_line, find_line, breaks_constraint, set_sequences,
}
use others_addons.StatementImport.Import.{import_single_file, import_file}
use others_addons.StatementImport.Creation.{create_bank_statements}
use others_addons.StatementImport.Creation.Balance.{Balances, create_bank_statements-Balances}
use others_addons.StatementImport.Import.Again.{import_file-again}

abbrev bank : Journal
bank = record { id = 7; id_text = "7"; currency = none; has_default_account = true }

abbrev odoo : Odoo
odoo = record {
  find_currency = λ code. some 1;
  sanitize = λ account. account;
  find_journal = λ number. some bank;
  has_bank_account = λ number. true;
  selected_journal = some bank;
  company_currency = 1;
  partner_of = λ account. some 3;
}

abbrev paid : String → String → Transaction
paid ref id = record {
  payment_ref = ref;
  amount = pos 20;
  unique_import_id = some id;
  account_number = some "BE01";
  partner_id = none;
  journal_id = none;
  sequence = 0;
}

abbrev statement_with : List Transaction → Statement
statement_with transactions = record {
  balance_start = some (pos 100);
  journal_id = none;
  transactions = transactions;
}

abbrev no_rows : Db
no_rows = record { lines = []; statements = []; file_journals = [] }

-- The second statement holds a transaction of the first one.
abbrev file : List Parsed
file =
    parsed (some "EUR") (some "BE02") (
      statement_with (paid "rent" "a" ∷ paid "wage" "b" ∷ [])
      ∷ statement_with (paid "wage" "b" ∷ paid "food" "c" ∷ [])
      ∷ [])
    ∷ []

abbrev imported : Result (Db × Feedback) → Option (Db × Feedback)
imported (raised e) = none
imported (returned done) = some done

abbrev rows_of : Option (Db × Feedback) → Db
rows_of none = no_rows
rows_of (some done) = done.0

abbrev told_of : Option (Db × Feedback) → Feedback
told_of none = record { statement_ids = []; notifications = [] }
told_of (some done) = done.1

abbrev first_import : Db × Feedback
first_import = (
  rows_of (imported (import_file odoo (some file) no_rows)),
  told_of (imported (import_file odoo (some file) no_rows)),
)

three_lines : length (first_import.0).lines ≡ 3
unfolding import_file check_parsed_data update_unique_import_id match_currency match_journal
    complete_statements existing_line find_line breaks_constraint set_sequences contains add_to_set
three_lines = refl

one_ignored : (first_import.1).notifications ≡ 1 ∷ []
unfolding import_file check_parsed_data update_unique_import_id match_currency match_journal
    complete_statements existing_line find_line breaks_constraint set_sequences contains add_to_set
one_ignored = refl

-- The same id twice in one statement.
same_id_twice :
    import_file odoo
      (some
        (parsed (some "EUR") none (statement_with (paid "x" "a" ∷ paid "y" "a" ∷ []) ∷ []) ∷ []))
      no_rows
    ≡ raised imported_only_once
unfolding import_file check_parsed_data update_unique_import_id match_currency match_journal
    complete_statements existing_line find_line breaks_constraint set_sequences contains add_to_set
same_id_twice = refl

import_file-again_example :
    (import_single_file odoo file
        (first_import.0)
        (record { statement_ids = []; notifications = [] })
      ≡ returned (first_import.0, record { statement_ids = []; notifications = [] }))
    × (import_file odoo (some file) (first_import.0) ≡ raised nothing_imported)
unfolding import_file check_parsed_data update_unique_import_id match_currency match_journal
    complete_statements existing_line find_line breaks_constraint set_sequences contains add_to_set
import_file-again_example =
    import_file-again odoo file no_rows (first_import.0) first_import
      (((("a", refl), (("b", refl), tt)), (((("b", refl), (("c", refl), tt))), tt)), tt) refl
      (λ id k. k, λ j m. m)

-- A file whose first transaction is known: its row starts 20 higher.
abbrev half_known : List Statement
half_known = statement_with (paid "rent" "BE02-7-a" ∷ paid "tax" "BE02-7-d" ∷ []) ∷ []

abbrev half_import : Db × Feedback
half_import = (
  rows_of (imported (create_bank_statements half_known (first_import.0) (first_import.1))),
  told_of (imported (create_bank_statements half_known (first_import.0) (first_import.1))),
)

create_bank_statements-Balances_example :
    (rows : List Statement) × ((half_import.0).statements ≡ (first_import.0).statements ++ rows)
    × Balances (first_import.0) half_known rows
unfolding import_file check_parsed_data update_unique_import_id match_currency match_journal
    complete_statements existing_line find_line breaks_constraint set_sequences contains add_to_set
    create_bank_statements
create_bank_statements-Balances_example =
    create_bank_statements-Balances half_known (first_import.0) (first_import.1) half_import refl

three_rows : length (half_import.0).statements ≡ 3
unfolding import_file check_parsed_data update_unique_import_id match_currency match_journal
    complete_statements existing_line find_line breaks_constraint set_sequences contains add_to_set
    create_bank_statements
three_rows = refl
