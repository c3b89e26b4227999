-- ===== src/StatementImport/Creation/Created.antt =====
-- After the creation of statements all their transactions are known
-- (account_statement_import_file/wizard/account_statement_import.py).
use Prim.Native.String.{String}
use others_addons.Base.{
  ℕ, ◌≡◌, ap, ◌∙◌, sym, inl, inr, true, List, [], ◌∷◌, ◌++◌, if_true, if_false, arith, Bool-cases,
  All, length,
}
use others_addons.StatementImport.{returned, Transaction, Statement}
use others_addons.StatementImport.Creation.{Db, breaks_constraint, create_statement, create_loop}
use others_addons.StatementImport.Creation.Known.{Knows, IsKnown, AllKnown, Extends}
use others_addons.StatementImport.Creation.Rows.{
  IsIdentified, has_id, has_id-set_sequences, Sorted, sort_transactions-Sorted,
  create_statement-Extends,
}
use others_addons.StatementImport.Creation.Steps.{
  bind-returned, returned-injective, List-cases, sorting_of, new_statement, create_loop-skip,
  create_loop-new,
}

abbrev pub AllIdentified : List Statement → Type 0
AllIdentified statements = All (λ s. All IsIdentified s.transactions) statements

-- The transactions of one statement are known behind it.
Sorted-IsKnown :
    (db after : Db) (created transactions : List Transaction)
    → Extends db after
    → ((id : String) → has_id id created ≡ true → Knows after id)
    → All IsIdentified transactions
    → All (Sorted db created) transactions
    → All (IsKnown after) transactions
Sorted-IsKnown db after created [] more made named sorted = tt
Sorted-IsKnown db after created (t ∷ transactions) more made (first, named) (here, sorted) =
    let (id, e) = first in
    let known : Knows after id = elim (here id e) [
      | inl old ↦ more id old
      | inr new ↦ made id new
    ] in
    ((id, e, known), Sorted-IsKnown db after created transactions more made named sorted)

Extends-IsKnown :
    (db after : Db) (transactions : List Transaction)
    → Extends db after
    → All (IsKnown db) transactions
    → All (IsKnown after) transactions
Extends-IsKnown db after [] more known = tt
Extends-IsKnown db after (t ∷ transactions) more (first, known) =
    let (id, e, here) = first in
    ((id, e, more id here), Extends-IsKnown db after transactions more known)

pub create_loop-AllKnown :
    (statements : List Statement) (db : Db) (ids existing : List ℕ) (done : Db × List ℕ × List ℕ)
    → create_loop statements db ids existing ≡ returned done
    → AllIdentified statements
    → (Extends db done.0) × (AllKnown done.0 statements)
unfolding create_loop
create_loop-AllKnown [] db ids existing done h named = (λ id known. ground (arith, h, known), tt)
create_loop-AllKnown (statement ∷ statements) db ids existing done h (first, named) =
    let sorting = sorting_of db existing statement in
    let sorted =
      sort_transactions-Sorted db statement.transactions
        (record { to_create = []; existing = existing; balance = statement.balance_start }) in
    elim (List-cases sorting.to_create) [
      | inl none_new ↦
          let (more, known) =
            create_loop-AllKnown statements db ids sorting.existing done
              (sym (create_loop-skip statement statements db ids existing none_new) ∙ h) named in
          let nothing : (id : String) → has_id id sorting.to_create ≡ true → Knows db id =
            λ id e. absurd (ground (arith, ap (has_id id) none_new, e)) in
          let here =
            Sorted-IsKnown db db sorting.to_create statement.transactions (λ id k. k) nothing first
              sorted in
          (more, (Extends-IsKnown db done.0 statement.transactions more here, known))
      | inr (t, rest, some_new) ↦
          let (after, made, h2) =
            bind-returned (create_statement (new_statement db existing statement) db) _ done
              (sym (create_loop-new statement statements db ids existing t rest some_new) ∙ h) in
          let (extends, created) =
            create_statement-Extends (new_statement db existing statement) db after made in
          let (more, known) =
            create_loop-AllKnown statements after (ids ++ length db.statements ∷ [])
              sorting.existing done h2 named in
          let here =
            Sorted-IsKnown db after sorting.to_create statement.transactions extends
              (λ id e. created id (has_id-set_sequences id sorting.to_create ∙ e)) first sorted in
          (
            λ id k. more id (extends id k),
            (Extends-IsKnown after done.0 statement.transactions more here, known),
          )
    ]

pub Extends-AllKnown :
    (db after : Db) (statements : List Statement)
    → Extends db after
    → AllKnown db statements
    → AllKnown after statements
Extends-AllKnown db after [] more known = tt
Extends-AllKnown db after (s ∷ statements) more (first, known) = (
  Extends-IsKnown db after s.transactions more first,
  Extends-AllKnown db after statements more known,
)

create_statement-journals :
    (statement : Statement) (db after : Db)
    → create_statement statement db ≡ returned after
    → after.file_journals ≡ db.file_journals
unfolding create_statement
create_statement-journals statement db after h =
    elim (Bool-cases (breaks_constraint db.lines statement.transactions)) [
      | inl twice ↦ absurd (ground (arith, sym (if_true _ _ _ twice) ∙ h))
      | inr once ↦
          ap (λ d. Db.file_journals d)
            (sym (returned-injective _ _ (sym (if_false _ _ _ once) ∙ h)))
    ]

-- The journals are not touched.
pub create_loop-journals :
    (statements : List Statement) (db : Db) (ids existing : List ℕ) (done : Db × List ℕ × List ℕ)
    → create_loop statements db ids existing ≡ returned done
    → (done.0).file_journals ≡ db.file_journals
unfolding create_loop
create_loop-journals [] db ids existing done h =
    ap (λ d. Db.file_journals d.0) (sym (returned-injective _ _ h))
create_loop-journals (statement ∷ statements) db ids existing done h =
    let sorting = sorting_of db existing statement in
    elim (List-cases sorting.to_create) [
      | inl none_new ↦
          create_loop-journals statements db ids sorting.existing done
            (sym (create_loop-skip statement statements db ids existing none_new) ∙ h)
      | inr (t, rest, some_new) ↦
          let (after, made, h2) =
            bind-returned (create_statement (new_statement db existing statement) db) _ done
              (sym (create_loop-new statement statements db ids existing t rest some_new) ∙ h) in
          create_loop-journals statements after (ids ++ length db.statements ∷ []) sorting.existing
            done h2
          ∙ create_statement-journals (new_statement db existing statement) db after made
    ]
