-- ===== src/Fulfillment/Statements/Laws.antt =====
-- What the run of a statement does to the number of rows of a kind
-- (src/infrastructure/database/dao/transaction.py).
use remnashop.Prelude.{
  ◌≡◌, ◌≤◌, ◌+◌, List, [], ◌∷◌, ◌++◌, ◌&&◌, not, refl, Bool, true, false, none, some, Bool-cases,
  inl, inr, ltb, Option-cases, arith, ℕ, ◌==◌, if◌then◌else◌, ==→eq,
}
use remnashop.Prelude.Tables.{update_where, count_where, find_where}
use remnashop.Prelude.Tables.Laws.{update-nothing}
use remnashop.Fulfillment.Row.{Transaction}
use remnashop.Fulfillment.Statements.{Statement, execute}
use remnashop.Fulfillment.Db.{Db, run_statement}

-- the rows for which the database refuses a statement
abbrev pub refused_row : (Transaction → Bool) → Statement → Transaction → Bool
refused_row admits s r = s.test r && not (admits (s.set r))

module _ (admits : Transaction → Bool) (s : Statement) where
  -- A statement that runs met no row that it would have made inadmissible.
  pub execute-runs :
      (rows rows' : List Transaction) (n : ℕ)
      → execute admits s rows ≡ some (rows', n)
      → (count_where (refused_row admits s) rows ≡ 0)
        × (update_where s.test s.set rows ≡ (rows', n))
  unfolding execute
  execute-runs rows rows' n e = elim (Bool-cases (count_where (refused_row admits s) rows == 0)) [
    | inl free ↦ (==→eq (count_where (refused_row admits s) rows) 0 free, ground arith)
    | inr bad ↦ absurd (ground arith)
  ]

  -- The same of the run in the database, with the rows after it and the answer.
  pub run-runs :
      (db db' : Db) (hit : Bool)
      → run_statement admits s db ≡ some (db', hit)
      → (count_where (refused_row admits s) db.transactions ≡ 0)
        × (db'.transactions ≡ (update_where s.test s.set db.transactions).0)
        × (hit ≡ ltb 0 (update_where s.test s.set db.transactions).1)
        × (db'.owners ≡ db.owners)
  unfolding run_statement
  run-runs db db' hit e = elim (Option-cases (execute admits s db.transactions)) [
    | inl bad ↦ absurd (ground arith)
    | inr ((rows, n), fine) ↦
        (let r = execute-runs db.transactions rows n fine in
          (r.0, ground arith, ground arith, ground arith))
  ]

  pub run-fine :
      (db : Db)
      → count_where (refused_row admits s) db.transactions ≡ 0
      → let (rows, n) = update_where s.test s.set db.transactions in
        run_statement admits s db ≡ some (record db { transactions = rows }, ltb 0 n)
  unfolding run_statement execute
  run-fine db free = ground arith

  pub run-refused :
      (db : Db)
      → (count_where (refused_row admits s) db.transactions == 0) ≡ false
      → run_statement admits s db ≡ none
  unfolding run_statement execute
  run-refused db bad = ground arith

  pub count-update_le :
      (key : Transaction → Bool)
      → ((r : Transaction)
          → s.test r ≡ true
          → admits (s.set r) ≡ true
          → key (s.set r) ≡ true
          → key r ≡ true)
      → (rows : List Transaction) → count_where (refused_row admits s) rows ≡ 0
      → count_where key (update_where s.test s.set rows).0 ≤ count_where key rows
  unfolding count_where update_where
  count-update_le key f [] free = omega arith
  count-update_le key f (r ∷ rows) free =
      let rest = count-update_le key f rows in ground (arith, f r)

  pub count-update_ge :
      (key : Transaction → Bool)
      → ((r : Transaction) → s.test r ≡ true → key r ≡ true → key (s.set r) ≡ true)
      → (rows : List Transaction)
      → count_where key rows ≤ count_where key (update_where s.test s.set rows).0
  unfolding count_where update_where
  count-update_ge key f [] = omega arith
  count-update_ge key f (r ∷ rows) = let rest = count-update_ge key f rows in ground (arith, f r)

  -- A statement that takes the rows it meets out of a kind.
  pub count-taken :
      (key : Transaction → Bool)
      → ((r : Transaction) → key (s.set r) ≡ false)
      → ((r : Transaction) → s.test r ≡ key r)
      → (rows : List Transaction)
      → count_where key (update_where s.test s.set rows).0 + (update_where s.test s.set rows).1
        ≡ count_where key rows
  unfolding count_where update_where
  count-taken key f same [] = refl
  count-taken key f same (r ∷ rows) = ground (arith, f r, same r, count-taken key f same rows)

pub count-appended :
    (key : Transaction → Bool) (rows : List Transaction) (r : Transaction)
    → count_where key (rows ++ r ∷ []) ≡ count_where key rows + (if key r then 1 else 0)
unfolding count_where
count-appended key [] r = ground arith
count-appended key (x ∷ rows) r = ground (arith, count-appended key rows r)

pub count-find_none :
    (key : Transaction → Bool) (rows : List Transaction)
    → find_where key rows ≡ none
    → count_where key rows ≡ 0
unfolding count_where find_where
count-find_none key [] e = refl
count-find_none key (r ∷ rows) e = ground (arith, count-find_none key rows)

pub count-narrower :
    (key wider : Transaction → Bool)
    → ((r : Transaction) → key r ≡ true → wider r ≡ true)
    → (rows : List Transaction) → count_where key rows ≤ count_where wider rows
unfolding count_where
count-narrower key wider f [] = omega arith
count-narrower key wider f (r ∷ rows) = ground (arith, f r, count-narrower key wider f rows)

-- The one row that a selector finds decides about all that it selects.
module _ (key more : Transaction → Bool) where
  count-both_none :
      (rows : List Transaction)
      → count_where key rows ≡ 0
      → count_where (λ r. key r && more r) rows ≡ 0
  unfolding count_where
  count-both_none [] e = refl
  count-both_none (r ∷ rows) e = ground (arith, count-both_none rows)

  pub count_unique :
      (rows : List Transaction) (t : Transaction)
      → count_where key rows ≤ 1
      → find_where key rows ≡ some t
      → count_where (λ r. key r && more r) rows ≡ (if more t then 1 else 0)
  unfolding count_where find_where
  count_unique [] t unique found = absurd (cc found)
  count_unique (r ∷ rows) t unique found =
      let rest = count_unique rows t in
      let none_left = count-both_none rows in
      elim (Bool-cases (key r)) [ inl mine ↦ ground arith | inr other ↦ ground arith ]

-- A statement that meets no row changes nothing.
pub run-nothing :
    (admits : Transaction → Bool) (s : Statement) (db : Db)
    → count_where s.test db.transactions ≡ 0
    → run_statement admits s db ≡ some (db, false)
unfolding run_statement execute
run-nothing admits s db e =
    let fewer =
      count-narrower (refused_row admits s) s.test (λ r h. ground arith) db.transactions in
    let same = update-nothing s.test s.set db.transactions e in ground arith

pub updated-count :
    (test : Transaction → Bool) (set : Transaction → Transaction) (rows : List Transaction)
    → (update_where test set rows).1 ≡ count_where test rows
unfolding count_where update_where
updated-count test set [] = refl
updated-count test set (r ∷ rows) = ground (arith, updated-count test set rows)

pub count-same :
    (key other : Transaction → Bool)
    → ((r : Transaction) → key r ≡ other r)
    → (rows : List Transaction) → count_where key rows ≡ count_where other rows
unfolding count_where
count-same key other f [] = refl
count-same key other f (r ∷ rows) = ground (arith, f r, count-same key other f rows)
