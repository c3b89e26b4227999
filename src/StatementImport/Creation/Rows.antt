-- ===== src/StatementImport/Creation/Rows.antt =====
-- What the creation of one statement adds to the table of the lines
-- (account_statement_import_file/wizard/account_statement_import.py).
use Prim.Native.String.{String}
use text.Mathlib.TextPositions.{eq_refl}
use others_addons.Base.{
  ℕ, suc, ◌≡◌, ◌≢◌, refl, subst, ◌∙◌, sym, ◌⊎◌, inl, inr, Bool, true, false, ◌||◌, List, [], ◌∷◌,
  ◌++◌, none, some, if_true, if_false, arith, Bool-cases, Option-cases, All, length, ◌==◌,
}
use others_addons.StatementImport.{returned, Transaction, Statement}
use others_addons.StatementImport.Creation.{
  Line, Db, same_id, find_line, existing_line, Sorting, sort_one, sort_transactions, number,
  set_sequences, lines_of, breaks_constraint, create_statement,
}
use others_addons.StatementImport.Creation.Known.{Knows, Extends}

-- A transaction has an id.
abbrev pub IsIdentified : Transaction → Type 0
IsIdentified transaction = (id : String) × (transaction.unique_import_id ≡ some id)

abbrev pub has_id : String → List Transaction → Bool
has_id id [] = false
has_id id (transaction ∷ transactions) =
    same_id id transaction.unique_import_id || has_id id transactions

has_id-append :
    (id : String) (l m : List Transaction) → has_id id (l ++ m) ≡ (has_id id l || has_id id m)
has_id-append id [] m = refl
has_id-append id (t ∷ l) m = ground (arith, has_id-append id l m)

-- A line is found by an id in longer lists, too.
find_line-append :
    (id : String) (first : ℕ) (lines more : List Line)
    → find_line id first lines ≢ none
    → find_line id first (lines ++ more) ≢ none
unfolding find_line
find_line-append id first [] more found e = found refl
find_line-append id first (line ∷ lines) more found e =
    elim (Bool-cases (same_id id line.values.unique_import_id)) [
      | inl same ↦ absurd (ground (arith, sym (if_true _ _ _ same) ∙ e))
      | inr other ↦
          find_line-append id (suc first) lines more (λ d. found (if_false _ _ _ other ∙ d))
            (sym (if_false _ _ _ other) ∙ e)
    ]

find_line-created :
    (id : String) (first statement : ℕ) (lines : List Line) (transactions : List Transaction)
    → has_id id transactions ≡ true
    → find_line id first (lines ++ lines_of statement transactions) ≢ none
unfolding find_line
find_line-created id first statement [] [] h e = absurd (ground (arith, h))
find_line-created id first statement [] (t ∷ transactions) h e =
    elim (Bool-cases (same_id id t.unique_import_id)) [
      | inl same ↦ absurd (ground (arith, sym (if_true _ _ _ same) ∙ e))
      | inr other ↦
          find_line-created id (suc first) statement [] transactions (ground (arith, h, other))
            (sym (if_false _ _ _ other) ∙ e)
    ]
find_line-created id first statement (line ∷ lines) transactions h e =
    elim (Bool-cases (same_id id line.values.unique_import_id)) [
      | inl same ↦ absurd (ground (arith, sym (if_true _ _ _ same) ∙ e))
      | inr other ↦
          find_line-created id (suc first) statement lines transactions h
            (sym (if_false _ _ _ other) ∙ e)
    ]

has_id-number :
    (id : String) (seq : ℕ) (transactions : List Transaction)
    → has_id id (number seq transactions) ≡ has_id id transactions
has_id-number id seq [] = refl
has_id-number id seq (t ∷ transactions) = ground (arith, has_id-number id (suc seq) transactions)

pub has_id-set_sequences :
    (id : String) (transactions : List Transaction)
    → has_id id (set_sequences transactions) ≡ has_id id transactions
unfolding set_sequences
has_id-set_sequences id [] = refl
has_id-set_sequences id (t ∷ transactions) = elim (Bool-cases (t.sequence == 0)) [
  | inl unset ↦ rw unset (ground (arith, has_id-number id 2 transactions))
  | inr set ↦ rw set refl
]

-- What is collected stays, and a transaction with an id is known or will be created.
sort_transactions-keeps :
    (db : Db) (id : String) (transactions : List Transaction) (sorting : Sorting)
    → has_id id sorting.to_create ≡ true
    → has_id id (sort_transactions db transactions sorting).to_create ≡ true
unfolding sort_transactions
sort_transactions-keeps db id [] sorting h = h
sort_transactions-keeps db id (t ∷ transactions) sorting h =
    sort_transactions-keeps db id transactions (sort_one (existing_line db t) t sorting)
      (elim (Option-cases (existing_line db t)) [
        | inl new ↦ rw new (ground (arith, has_id-append id sorting.to_create (t ∷ []), h))
        | inr (line, old) ↦ rw old h
      ])

abbrev pub Sorted : Db → List Transaction → Transaction → Type 0
Sorted db created t =
    (id : String) → t.unique_import_id ≡ some id → (Knows db id) ⊎ (has_id id created ≡ true)

pub sort_transactions-Sorted :
    (db : Db) (transactions : List Transaction) (sorting : Sorting)
    → All (Sorted db (sort_transactions db transactions sorting).to_create) transactions
unfolding sort_transactions existing_line
sort_transactions-Sorted db [] sorting = tt
sort_transactions-Sorted db (t ∷ transactions) sorting = (
  λ id named. elim (Option-cases (find_line id 0 db.lines)) [
    | inr (line, found) ↦ inl (λ e. ground (arith, found, e))
    | inl missing ↦
        let new : existing_line db t ≡ none = rw named missing in
        let same : same_id id t.unique_import_id ≡ true = rw named (eq_refl id) in
        inr (
          sort_transactions-keeps db id transactions (sort_one (existing_line db t) t sorting)
            (rw new (ground (arith, has_id-append id sorting.to_create (t ∷ []), same))))
  ],
  sort_transactions-Sorted db transactions (sort_one (existing_line db t) t sorting),
)

pub create_statement-Extends :
    (statement : Statement) (db after : Db)
    → create_statement statement db ≡ returned after
    → (Extends db after)
      × ((id : String) → has_id id statement.transactions ≡ true → Knows after id)
unfolding create_statement
create_statement-Extends statement db after h =
    elim (Bool-cases (breaks_constraint db.lines statement.transactions)) [
      | inl twice ↦ absurd (ground (arith, sym (if_true _ _ _ twice) ∙ h))
      | inr once ↦
          let made = sym (if_false _ _ _ once) ∙ h in
          let rows : db.lines ++ lines_of (length db.statements) statement.transactions
              ≡ after.lines =
            ground (arith, made) in
          (
            λ id found.
                subst (λ l. find_line id 0 l ≢ none) rows
                  (find_line-append id 0 db.lines
                    (lines_of (length db.statements) statement.transactions) found),
            λ id named.
                subst (λ l. find_line id 0 l ≢ none) rows
                  (find_line-created id 0 (length db.statements) db.lines statement.transactions
                    named),
          )
    ]
