-- ===== src/StatementImport/Creation/Steps.antt =====
-- Results that are returned, and the two turns of the loop over the statements
-- (account_statement_import_file/wizard/account_statement_import.py).

use others_addons.Base.{
  ℕ, ◌≡◌, refl, ap, ◌⊎◌, inl, inr, List, [], ◌∷◌, ◌++◌, if_true, if_false, arith, length,
}
use others_addons.StatementImport.{Result, raised, returned, ◌>>=◌, Transaction, Statement}
use others_addons.StatementImport.Creation.{
  Db, Sorting, sort_transactions, set_sequences, create_statement, is_nothing, create_loop,
}

abbrev or_value : {A : Type 0} → A → Result A → A
or_value a (raised e) = a
or_value a (returned b) = b

pub returned-injective : {A : Type 0} (a b : A) → returned a ≡ returned b → a ≡ b
returned-injective a b e = ap (or_value a) e

pub bind-returned :
    {A B : Type 0} (r : Result A) (next : A → Result B) (b : B)
    → (r >>= next) ≡ returned b
    → (a : A) × (r ≡ returned a) × (next a ≡ returned b)
bind-returned (raised e) next b h = absurd (ground (arith, h))
bind-returned (returned a) next b h = (a, refl, h)

pub List-cases :
    (l : List Transaction)
    → (l ≡ []) ⊎ ((t : Transaction) × (rest : List Transaction) × (l ≡ t ∷ rest))
List-cases [] = inl refl
List-cases (t ∷ rest) = inr (t, rest, refl)

abbrev pub sorting_of : Db → List ℕ → Statement → Sorting
sorting_of db existing statement =
    sort_transactions db statement.transactions
      (record { to_create = []; existing = existing; balance = statement.balance_start })

-- The statement that is created.
abbrev pub new_statement : Db → List ℕ → Statement → Statement
new_statement db existing statement = record statement {
  balance_start = (sorting_of db existing statement).balance;
  transactions = set_sequences (sorting_of db existing statement).to_create;
}

module _ (statement : Statement) (statements : List Statement) (db : Db)
    (ids existing : List ℕ) where
  pub create_loop-skip :
      (sorting_of db existing statement).to_create ≡ []
      → create_loop (statement ∷ statements) db ids existing
        ≡ create_loop statements db ids (sorting_of db existing statement).existing
  unfolding create_loop
  create_loop-skip none_new = if_true _ _ _ (ap is_nothing none_new)

  pub create_loop-new :
      (t : Transaction) (rest : List Transaction)
      → (sorting_of db existing statement).to_create ≡ t ∷ rest
      → create_loop (statement ∷ statements) db ids existing ≡ (
          create_statement (new_statement db existing statement) db >>= (λ after.
            create_loop statements after
              (ids ++ length db.statements ∷ [])
              (sorting_of db existing statement).existing))
  unfolding create_loop
  create_loop-new t rest some_new = if_false _ _ _ (ap is_nothing some_new)
