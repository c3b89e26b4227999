-- ===== src/StatementImport/Matching.antt =====
-- `_match_currency` and `_match_journal`
-- (account_statement_import_file/wizard/account_statement_import.py).
use Prim.Native.String.{String}
use others_addons.Base.{ℕ, Bool, false, not, Option, none, some, if◌then◌else◌, ◌==◌}
use others_addons.StatementImport.{
  no_such_currency, no_journal_selected, other_journal_selected, account_on_no_journal,
  no_such_account, other_currency, Result, raised, returned, ◌>>=◌, Journal, Odoo,
}

unfoldable pub match_currency : Odoo → String → Result ℕ
match_currency odoo code = elim (odoo.find_currency code) [
  | none ↦ raised no_such_currency
  | some currency ↦ returned currency
]

abbrev pub is_other : Journal → Option Journal → Bool
is_other journal none = false
is_other journal (some selected) = not (journal.id == selected.id)

-- The journal with the account number, or the one that the wizard was started from.
unfoldable pub find_journal : Odoo → Option String → Result Journal
find_journal odoo none = elim odoo.selected_journal [
  | none ↦ raised no_journal_selected
  | some journal ↦ returned journal
]
find_journal odoo (some account) =
    let number = odoo.sanitize account in
    elim (odoo.find_journal number) [
      | none ↦
          raised (if odoo.has_bank_account number then account_on_no_journal else no_such_account)
      | some journal ↦
          if is_other journal odoo.selected_journal
          then raised other_journal_selected
          else returned journal
    ]

abbrev pub currency_or : Option ℕ → ℕ → ℕ
currency_or none company = company
currency_or (some currency) company = currency

unfoldable pub match_journal : Odoo → Option String → ℕ → Result Journal
unfolding find_journal
match_journal odoo account currency = do
  journal ← find_journal odoo account
  let matches = currency_or journal.currency odoo.company_currency == currency
  if matches then returned journal else raised other_currency
