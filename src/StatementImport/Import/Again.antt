-- ===== src/StatementImport/Import/Again.antt =====
-- A file that is imported again
-- (account_statement_import_file/wizard/account_statement_import.py).
use Prim.Native.String.{String}
use others_addons.Base.{
  ℕ, ◌≡◌, refl, ap, subst, ◌∙◌, sym, inl, inr, true, List, [], ◌∷◌, Option, none, some, if_true,
  if_false, arith, Bool-cases, All, contains, contains-add, ==_iff, add as add_to_set,
}
use others_addons.StatementImport.{
  nothing_imported, Result, raised, returned, Statement, Journal, Parsed, not_a_tuple, parsed, Odoo,
  check_parsed_data, complete_statements,
}
use others_addons.StatementImport.Matching.{match_currency, match_journal}
use others_addons.StatementImport.Creation.{Db, Feedback, create_loop, create_bank_statements}
use others_addons.StatementImport.Creation.Known.{AllKnown, Extends, create_bank_statements-known}
use others_addons.StatementImport.Creation.Steps.{bind-returned, returned-injective}
use others_addons.StatementImport.Creation.Created.{
  AllIdentified, create_loop-AllKnown, Extends-AllKnown, create_loop-journals,
}
use others_addons.StatementImport.Import.Identified.{complete_statements-AllIdentified}
use others_addons.StatementImport.Import.{
  create_in_journal, import_matched, import_single_statement, import_single_file, import_file,
}

-- Lines and journals are only added.
abbrev pub Grows : Db → Db → Type 0
Grows db after =
    (Extends db after)
    × ((j : ℕ) → contains j db.file_journals ≡ true → contains j after.file_journals ≡ true)

-- A statement of a file that leaves every later table as it is.
IsSettled : Odoo → Parsed → Db → Type 0
IsSettled odoo single db =
    (later : Db) (feedback : Feedback)
    → Grows db later
    → import_single_statement odoo single later feedback ≡ returned (later, feedback)

-- The transactions of a parsed statement have ids.
abbrev pub HasIds : Parsed → Type 0
HasIds not_a_tuple = Unit
HasIds (parsed code account statements) = AllIdentified statements

create_bank_statements-AllKnown :
    (statements : List Statement) (db : Db) (feedback : Feedback) (done : Db × Feedback)
    → create_bank_statements statements db feedback ≡ returned done
    → AllIdentified statements
    → (Extends db done.0)
      × (AllKnown done.0 statements)
      × ((done.0).file_journals ≡ db.file_journals)
unfolding create_bank_statements
create_bank_statements-AllKnown statements db feedback done h named =
    let (looped, e, h2) = bind-returned (create_loop statements db [] []) _ done h in
    let (more, known) = create_loop-AllKnown statements db [] [] looped e named in
    let same : looped.0 ≡ done.0 = ap (λ d. d.0) (returned-injective _ _ h2) in
    (
      subst (Extends db) same more,
      subst (λ d. AllKnown d statements) same known,
      ap (λ d. Db.file_journals d) (sym same) ∙ create_loop-journals statements db [] [] looped e,
    )

Grows-trans : (a b c : Db) → Grows a b → Grows b c → Grows a c
Grows-trans a b c (lines, journals) (lines2, journals2) =
    (λ id k. lines2 id (lines id k), λ j m. journals2 j (journals j m))

-- The source of a journal is set once.
add-known : (j : ℕ) (s : List ℕ) → contains j s ≡ true → add_to_set j s ≡ s
unfolding add_to_set
add-known j s m = if_true _ _ _ m

contains-add_old : (j k : ℕ) (s : List ℕ) → contains j s ≡ true → contains j (add_to_set k s) ≡ true
contains-add_old j k s m = ground (arith, contains-add j k s)

contains-add_new : (j : ℕ) (s : List ℕ) → contains j (add_to_set j s) ≡ true
contains-add_new j s = ground (arith, contains-add j j s, ==_iff j j)

-- A journal whose transactions are known already has nothing to import.
create_in_journal-known :
    (odoo : Odoo) (account : Option String) (statements completed : List Statement)
    (journal : Journal) (db : Db) (feedback : Feedback)
    → complete_statements odoo journal account statements ≡ returned completed
    → AllKnown db completed
    → contains journal.id db.file_journals ≡ true
    → create_in_journal odoo account statements journal db feedback ≡ returned (db, feedback)
unfolding create_in_journal
create_in_journal-known odoo account statements completed journal db feedback e known m =
    rw
      (
        e,
        create_bank_statements-known completed db feedback known,
        add-known journal.id db.file_journals m,
      )
      refl

create_in_journal-settles :
    (odoo : Odoo) (account : Option String) (statements : List Statement) (journal : Journal)
    (db : Db) (feedback : Feedback) (done : Db × Feedback)
    → create_in_journal odoo account statements journal db feedback ≡ returned done
    → AllIdentified statements
    → (Grows db done.0)
      × ((later : Db) (told : Feedback)
          → Grows done.0 later
          → create_in_journal odoo account statements journal later told ≡ returned (later, told))
unfolding create_in_journal
create_in_journal-settles odoo account statements journal db feedback done h named =
    let (completed, e, h2) =
      bind-returned (complete_statements odoo journal account statements) _ done h in
    let (created, d, h3) = bind-returned (create_bank_statements completed db feedback) _ done h2 in
    let (more, known, journals) =
      create_bank_statements-AllKnown completed db feedback created d
        (complete_statements-AllIdentified odoo journal account statements completed e named) in
    let sourced : Db = record (created.0) {
      file_journals = add_to_set journal.id (created.0).file_journals;
    } in
    let same : sourced ≡ done.0 = ap (λ x. x.0) (returned-injective _ _ h3) in
    let grown : Grows db sourced = (
      more,
      λ j m.
          contains-add_old j journal.id (created.0).file_journals
            (subst (λ s. contains j s ≡ true) (sym journals) m),
    ) in
    (
      subst (Grows db) same grown,
      λ later told after.
          let (lines, kept) = subst (λ x. Grows x later) (sym same) after in
          create_in_journal-known odoo account statements completed journal later told e
            (Extends-AllKnown created.0 later completed lines known)
            (kept journal.id (contains-add_new journal.id (created.0).file_journals)),
    )

import_matched-settles :
    (odoo : Odoo) (code account : Option String) (statements : List Statement) (db : Db)
    (feedback : Feedback) (done : Db × Feedback)
    → import_matched odoo code account statements db feedback ≡ returned done
    → AllIdentified statements
    → (Grows db done.0)
      × ((later : Db) (told : Feedback)
          → Grows done.0 later
          → import_matched odoo code account statements later told ≡ returned (later, told))
unfolding import_matched
import_matched-settles odoo none account statements db feedback done h named =
    absurd (ground (arith, h))
import_matched-settles odoo (some code) account statements db feedback done h named =
    let (currency, found, h2) = bind-returned (match_currency odoo code) _ done h in
    let (journal, matched, h3) = bind-returned (match_journal odoo account currency) _ done h2 in
    elim (Bool-cases journal.has_default_account) [
      | inl given ↦
          let (grows, again) =
            create_in_journal-settles odoo account statements journal db feedback done
              (sym (if_true _ _ _ given) ∙ h3) named in
          (grows, λ later told after. rw (found, matched, given) (again later told after))
      | inr missing ↦ absurd (ground (arith, sym (if_false _ _ _ missing) ∙ h3))
    ]

Grows-refl : (db : Db) → Grows db db
Grows-refl db = (λ id k. k, λ j m. m)

import_single_statement-settles :
    (odoo : Odoo) (single : Parsed) (db : Db) (feedback : Feedback) (done : Db × Feedback)
    → import_single_statement odoo single db feedback ≡ returned done
    → HasIds single
    → (Grows db done.0) × (IsSettled odoo single done.0)
unfolding import_single_statement IsSettled
import_single_statement-settles odoo not_a_tuple db feedback done h named =
    absurd (ground (arith, h))
import_single_statement-settles odoo (parsed code account statements) db feedback done h named =
    elim (Bool-cases (check_parsed_data statements)) [
      | inl checked ↦
          let (grows, again) =
            import_matched-settles odoo code account statements db feedback done
              (sym (if_true _ _ _ checked) ∙ h) named in
          (grows, λ later told after. if_true _ _ _ checked ∙ again later told after)
      | inr empty ↦ (
        subst (Grows db) (ap (λ x. x.0) (returned-injective _ _ (sym (if_false _ _ _ empty) ∙ h)))
            (Grows-refl db),
        λ later told after. if_false _ _ _ empty,
      )
    ]

import_single_file-settles :
    (odoo : Odoo) (parsing_data : List Parsed) (db : Db) (feedback : Feedback)
    (done : Db × Feedback)
    → import_single_file odoo parsing_data db feedback ≡ returned done
    → All HasIds parsing_data
    → (Grows db done.0)
      × ((later : Db) (told : Feedback)
          → Grows done.0 later
          → import_single_file odoo parsing_data later told ≡ returned (later, told))
unfolding import_single_file IsSettled
import_single_file-settles odoo [] db feedback done h named = (
  subst (Grows db) (ap (λ x. x.0) (returned-injective _ _ h)) (Grows-refl db),
  λ later told after. refl,
)
import_single_file-settles odoo (single ∷ parsing_data) db feedback done h (first, named) =
    let (one, e, h2) = bind-returned (import_single_statement odoo single db feedback) _ done h in
    let (grows, settled) = import_single_statement-settles odoo single db feedback one e first in
    let (more, again) = import_single_file-settles odoo parsing_data one.0 one.1 done h2 named in
    (
      Grows-trans db one.0 done.0 grows more,
      λ later told after.
          rw (settled later told (Grows-trans one.0 done.0 later more after))
            (again later told after),
    )

-- What `_import_file` gives is what the statements of the file gave.
kept :
    (looped : Db × Feedback) (ids : List ℕ) (done : Db × Feedback)
    → (elim ids as (λ l. Result (Db × Feedback)) [
      | [] ↦ raised nothing_imported
      | id ∷ rest ↦ returned looped
    ])
      ≡ returned done
    → looped ≡ done
kept looped [] done h = absurd (ground (arith, h))
kept looped (id ∷ ids) done h = returned-injective looped done h

-- When a file was imported and each of its transactions has an id, an import of the same file, with
-- the same answers of the searches, at once or when lines and journals were added since, leaves the
-- tables as they are and raises the error that nothing was imported.
pub import_file-again :
    (odoo : Odoo) (parsing_data : List Parsed) (db later : Db) (done : Db × Feedback)
    → All HasIds parsing_data
    → import_file odoo (some parsing_data) db ≡ returned done
    → Grows done.0 later
    → (import_single_file odoo parsing_data later
          (record { statement_ids = []; notifications = [] })
        ≡ returned (later, record { statement_ids = []; notifications = [] }))
      × (import_file odoo (some parsing_data) later ≡ raised nothing_imported)
unfolding import_file
import_file-again odoo parsing_data db later done named h after =
    let start : Feedback = record { statement_ids = []; notifications = [] } in
    let (looped, e, h2) = bind-returned (import_single_file odoo parsing_data db start) _ done h in
    let (grows, again) = import_single_file-settles odoo parsing_data db start looped e named in
    let same : looped ≡ done = kept looped looped.1.statement_ids done h2 in
    let nothing = again later start (subst (λ d. Grows d.0 later) (sym same) after) in
    (nothing, rw nothing refl)
