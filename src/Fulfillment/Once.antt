-- ===== src/Fulfillment/Once.antt =====
-- A payment is fulfilled at most once: of all the runs of `ProcessPayment` for it, in any history of
-- calls, one goes on to the purchase (src/application/use_cases/gateways/commands/payment.py).
use remnashop.Prelude.{
  ◌≡◌, ◌≤◌, ◌+◌, List, [], ◌∷◌, ◌++◌, ◌&&◌, refl, Bool, true, none, some, Bool-cases, inl, inr,
  arith, ℕ, ◌==◌, if◌then◌else◌, ==→eq, Time, Text,
}
use mathlib.Core.Path.{subst}
use remnashop.Prelude.Tables.{count_where}
use remnashop.Fulfillment.Row.{Transaction, admissible}
use remnashop.Fulfillment.Statements.Laws.{
  count-update_le, count-update_ge, count-taken, count-appended, count-find_none, count-narrower,
  run-runs,
}
use remnashop.Fulfillment.Statements.Events.{claim_fulfillment, claimable}
use remnashop.Fulfillment.Db.{Db, run_statement, get_by_payment_id}
use remnashop.Fulfillment.Calls.{
  statement, StatementCall, claim, Call, deliver, finish, sweep, run, create, elsewhere, perform,
  fulfillments_begun, payment_of, is_won,
}
use remnashop.Fulfillment.Process.{PyText, receive}
use remnashop.Fulfillment.Calls.Won.{won-receive}
use remnashop.Fulfillment.Calls.Reach.{Reach, here, ran, added, aside}
use remnashop.Fulfillment.Calls.Reach.Histories.{Reach-perform}
use remnashop.Fulfillment.Calls.Kept.{of_payment, payment_id-kept, claimable-kept}

abbrev claimable_as : ℕ → Transaction → Bool
claimable_as p r = r.payment_id == p && claimable r

-- what is left of the one chance of a payment: a claimable row, or a payment that has no row yet
chances : ℕ → Db → ℕ
chances p db =
    count_where (claimable_as p) db.transactions
    + (if count_where (of_payment p) db.transactions == 0 then 1 else 0)

chances-ran :
    (p : ℕ) (now : Time) (c : StatementCall) (db db' : Db) (hit : Bool)
    → run_statement admissible (statement now c db.transactions) db ≡ some (db', hit)
    → chances p db' ≤ chances p db
unfolding chances
chances-ran p now c db db' hit e =
    let s = statement now c db.transactions in
    let (free, rows, answer, owners) = run-runs admissible s db db' hit e in
    rw rows (
      ground (
        arith,
        count-update_le admissible s (claimable_as p)
            (λ r t a k.
              let same = payment_id-kept now c db.transactions r in
              let was = claimable-kept now c db.transactions r t a in ground arith)
            db.transactions free,
        count-update_ge admissible s (of_payment p)
            (λ r t k. let same = payment_id-kept now c db.transactions r in ground arith)
            db.transactions,
      ))

chances-same :
    (p : ℕ) (db db' : Db) → db'.transactions ≡ db.transactions → chances p db' ≡ chances p db
unfolding chances
chances-same p db db' rows = rw rows refl

chances-added :
    (p : ℕ) (row : Transaction) (db db' : Db)
    → get_by_payment_id row.payment_id db ≡ none
    → db'.transactions ≡ db.transactions ++ row ∷ []
    → chances p db' ≤ chances p db
unfolding chances get_by_payment_id
chances-added p row db db' absent rows =
    let new = count-find_none (of_payment row.payment_id) db.transactions absent in
    rw rows (elim (Bool-cases (row.payment_id == p)) [
      | inl same ↦
          (let absent_p : count_where (of_payment p) db.transactions ≡ 0 =
              subst (λ n. count_where (of_payment n) db.transactions ≡ 0)
                (==→eq row.payment_id p same) new in
            ground (
              arith,
              count-appended (claimable_as p) db.transactions row,
              count-appended (of_payment p) db.transactions row,
            ))
      | inr other ↦ ground (
        arith,
        count-appended (claimable_as p) db.transactions row,
        count-appended (of_payment p) db.transactions row,
      )
    ])

chances-Reach : (p : ℕ) {s u : Db} → Reach admissible s u → chances p u ≤ chances p s
chances-Reach p here = omega arith
chances-Reach p (ran {t} {u} r now c hit e) =
    omega (arith, chances-Reach p r, chances-ran p now c t u hit e)
chances-Reach p (added {t} {u} r row absent fits rows) =
    omega (arith, chances-Reach p r, chances-added p row t u absent rows)
chances-Reach p (aside {t} {u} r rows) = omega (arith, chances-Reach p r, chances-same p t u rows)

-- A claim that is won takes the chance away.
chances-claim :
    (p : ℕ) (now : Time) (k : Text) (db db' : Db)
    → run_statement admissible (statement now (claim p k) db.transactions) db ≡ some (db', true)
    → chances p db' + 1 ≤ chances p db
unfolding chances statement claim_fulfillment
chances-claim p now k db db' e =
    let s = statement now (claim p k) db.transactions in
    let (free, rows, answer, owners) = run-runs admissible s db db' true e in
    rw rows (
      ground (
        arith,
        count-taken admissible s (claimable_as p) (λ r. ground arith) (λ r. ground arith)
            db.transactions,
        count-update_ge admissible s (of_payment p)
            (λ r t k'. let same = payment_id-kept now (claim p k) db.transactions r in ground arith)
            db.transactions,
      ))

module _ (py : PyText) where
  chances-perform :
      (p : ℕ) (now : Time) (c : Call) (db : Db)
      → let (db', begun) = perform py admissible now c db in
        (if payment_of c p && begun then 1 else 0) + chances p db' ≤ chances p db
  unfolding perform
  chances-perform p now (deliver k event) db =
      let done = receive py admissible now k event db in
      let fewer = chances-Reach p (Reach-perform admissible py now (deliver k event) db) in
      elim (Bool-cases (event.payment_id == p)) [
        | inr other ↦ rw other (omega (arith, fewer))
        | inl same ↦ elim (Bool-cases (is_won done.1)) [
          | inr lost ↦ rw (lost, same) (omega (arith, fewer))
          | inl won ↦
              (let (mid, reached, claimed) = won-receive py admissible now k event db won in
                let taken = chances-claim event.payment_id now k mid done.0 claimed in
                let taken_p : chances p done.0 + 1 ≤ chances p mid =
                  subst (λ n. chances n done.0 + 1 ≤ chances n mid) (==→eq event.payment_id p same)
                    taken in
                rw (won, same) (omega (arith, chances-Reach p reached)))
        ]
      ]
  chances-perform p now (finish k q conflict defer effect) db = omega (
    arith,
    chances-Reach p (Reach-perform admissible py now (finish k q conflict defer effect) db),
  )
  chances-perform p now (sweep free k) db =
      omega (arith, chances-Reach p (Reach-perform admissible py now (sweep free k) db))
  chances-perform p now (run c) db =
      omega (arith, chances-Reach p (Reach-perform admissible py now (run c) db))
  chances-perform p now (create row) db =
      omega (arith, chances-Reach p (Reach-perform admissible py now (create row) db))
  chances-perform p now (elsewhere owners inbox n) db =
      omega (arith, chances-Reach p (Reach-perform admissible py now (elsewhere owners inbox n) db))

  begun-le-chances :
      (p : ℕ) (history : List (Time × Call)) (db : Db)
      → fulfillments_begun py admissible p history db ≤ chances p db
  unfolding fulfillments_begun
  begun-le-chances p [] db = omega arith
  begun-le-chances p ((now, c) ∷ rest) db = omega (
    arith,
    chances-perform p now c db,
    begun-le-chances p rest (perform py admissible now c db).0,
  )

  chances-le_one :
      (p : ℕ) (db : Db) → count_where (of_payment p) db.transactions ≤ 1 → chances p db ≤ 1
  unfolding chances
  chances-le_one p db unique =
      ground (
        arith,
        count-narrower (claimable_as p) (of_payment p) (λ r h. ground arith) db.transactions,
      )

  -- In every history of events from providers, ends of runs, sweeps, alerts, timeouts, merges of
  -- users and new transactions, where the database enforces the CHECK constraints of `transactions`
  -- and the payment has one row at most at the start, `ProcessPayment` goes on to the purchase for
  -- that payment at most once, also where events repeat or come out of order or after a failure.
  pub fulfilled_at_most_once :
      (p : ℕ) (history : List (Time × Call)) (db : Db)
      → count_where (of_payment p) db.transactions ≤ 1
      → fulfillments_begun py admissible p history db ≤ 1
  fulfilled_at_most_once p history db unique =
      omega (arith, begun-le-chances p history db, chances-le_one p db unique)
