-- ===== src/StatementImport/Import.antt =====
-- `_import_file`, `import_single_file` and `import_single_statement`
-- (account_statement_import_file/wizard/account_statement_import.py).
pub mod Identified
pub mod Again
use Prim.Native.String.{String}
use others_addons.Base.{
  ℕ, Bool, true, false, not, List, [], ◌∷◌, Option, none, some, if◌then◌else◌, add as add_to_set,
}
use others_addons.StatementImport.{
  ImportError, unsupported_format, invalid_result, missing_currency, no_default_account,
  nothing_imported, Result, raised, returned, ◌>>=◌, Statement, Journal, Parsed, not_a_tuple,
  parsed, Odoo, check_parsed_data, complete_statements,
}
use others_addons.StatementImport.Matching.{match_currency, match_journal}
use others_addons.StatementImport.Creation.{Db, Feedback, create_bank_statements}

-- The completed statements of a journal are created, and the source of the journal is set.
unfoldable pub create_in_journal :
    Odoo → Option String → List Statement → Journal → Db → Feedback → Result (Db × Feedback)
unfolding create_bank_statements
create_in_journal odoo account statements journal db feedback = do
  completed ← complete_statements odoo journal account statements
  done ← create_bank_statements completed db feedback
  let sourced : Db = record (done.0) {
    file_journals = add_to_set journal.id (done.0).file_journals;
  }
  returned (sourced, done.1)

-- `import_single_statement` behind the test of the raw data.
unfoldable pub import_matched :
    Odoo → Option String → Option String → List Statement → Db → Feedback → Result (Db × Feedback)
unfolding create_in_journal
import_matched odoo none account statements db feedback = raised missing_currency
import_matched odoo (some code) account statements db feedback = do
  currency ← match_currency odoo code
  journal ← match_journal odoo account currency
  let created = create_in_journal odoo account statements journal db feedback
  if journal.has_default_account then created else raised no_default_account

unfoldable pub import_single_statement : Odoo → Parsed → Db → Feedback → Result (Db × Feedback)
unfolding import_matched
import_single_statement odoo not_a_tuple db feedback = raised invalid_result
import_single_statement odoo (parsed code account statements) db feedback =
    let matched = import_matched odoo code account statements db feedback in
    if check_parsed_data statements then matched else returned (db, feedback)

-- `import_single_file` on what the parser gives for the file.
unfoldable pub import_single_file : Odoo → List Parsed → Db → Feedback → Result (Db × Feedback)
unfolding import_single_statement
import_single_file odoo [] db feedback = returned (db, feedback)
import_single_file odoo (single ∷ parsing_data) db feedback = do
  done ← import_single_statement odoo single db feedback
  import_single_file odoo parsing_data (done.0) (done.1)

-- `_import_file`; no parser for the file is a `UserError`. The attachment is a row of another table.
unfoldable pub import_file : Odoo → Option (List Parsed) → Db → Result (Db × Feedback)
unfolding import_single_file
import_file odoo none db = raised unsupported_format
import_file odoo (some parsing_data) db = do
  done ← import_single_file odoo parsing_data db (record { statement_ids = []; notifications = [] })
  elim (done.1).statement_ids [ [] ↦ raised nothing_imported | id ∷ ids ↦ returned done ]
