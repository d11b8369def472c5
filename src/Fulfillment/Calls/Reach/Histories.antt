-- ===== src/Fulfillment/Calls/Reach/Histories.antt =====
-- What a call, and a history of calls, does to `transactions` is a sequence of the statements and of
-- new rows.
use remnashop.Prelude.{List, [], ◌∷◌, refl, Time, Text, Bool, Option-cases, Bool-cases, inl, inr, ℕ}
use remnashop.Fulfillment.Row.{Transaction}
use remnashop.Fulfillment.Db.{Db, run_statement, get_by_payment_id}
use remnashop.Fulfillment.Process.{PyText}
use remnashop.Fulfillment.Calls.{
  statement, StatementCall, expire_all, claim_alerts, Call, deliver, finish, sweep, run, create,
  elsewhere, stands_alone, fulfillment_sweep_batch, alert_lease, insert_transaction,
  commit_statement, run_sweep, perform, run_history,
}
use remnashop.Fulfillment.Calls.Reach.{Reach, here, ran, added, aside}
use remnashop.Fulfillment.Calls.Reach.Received.{Reach-receive}
use remnashop.Fulfillment.Calls.Reach.Settled.{Reach-settle}

module _ (admits : Transaction → Bool) where
  pub Reach-trans : {s t u : Db} → Reach admits s t → Reach admits t u → Reach admits s u
  Reach-trans r here = r
  Reach-trans r (ran q now c hit e) = ran (Reach-trans r q) now c hit e
  Reach-trans r (added q row absent fits e) = added (Reach-trans r q) row absent fits e
  Reach-trans r (aside q e) = aside (Reach-trans r q) e

  module _ (py : PyText) where
    Reach-commit_statement :
        (now : Time) (c : StatementCall) (db : Db)
        → Reach admits db (commit_statement py admits now c db)
    unfolding commit_statement
    Reach-commit_statement now c db =
        elim (Option-cases (run_statement admits (statement now c db.transactions) db)) [
          | inl e ↦ rw (e, commit_statement) here
          | inr ((db', hit), e) ↦ rw (e, commit_statement) (ran here now c hit e)
        ]

    Reach-run_sweep :
        (now : Time) (free : ℕ → Bool) (token_hash : Text) (db : Db)
        → Reach admits db (run_sweep py admits now free token_hash db)
    unfolding run_sweep
    Reach-run_sweep now free k db =
        elim (Option-cases (
          run_statement admits
            (statement now (expire_all free fulfillment_sweep_batch) db.transactions) db)) [
              | inl e ↦ rw (e, run_sweep) here
              | inr ((mid, hit), e) ↦
                  (let alerts = claim_alerts free k alert_lease fulfillment_sweep_batch in
                    elim (Option-cases
                      (run_statement admits (statement now alerts mid.transactions) mid)) [
                        | inl f ↦ rw (e, f, run_sweep) here
                        | inr ((db', n), f) ↦
                            rw (e, f, run_sweep)
                              (ran (ran here now (expire_all free fulfillment_sweep_batch) hit e)
                                now alerts n f)
                      ])
            ]

    Reach-insert_transaction :
        (row : Transaction) (db : Db) → Reach admits db (insert_transaction admits row db)
    unfolding insert_transaction
    Reach-insert_transaction row db = elim (Option-cases (get_by_payment_id row.payment_id db)) [
      | inr (t, e) ↦ rw (e, insert_transaction) here
      | inl e ↦ elim (Bool-cases (admits row)) [
        | inl fits ↦ rw (e, fits, insert_transaction) (added here row e fits refl)
        | inr unfit ↦ rw (e, unfit, insert_transaction) here
      ]
    ]

    pub Reach-perform :
        (now : Time) (c : Call) (db : Db) → Reach admits db (perform py admits now c db).0
    unfolding perform
    Reach-perform now (deliver k event) db = Reach-receive py admits now k event db
    Reach-perform now (finish k p conflict defer effect) db =
        Reach-settle admits now k p conflict defer effect db
    Reach-perform now (sweep free k) db = Reach-run_sweep now free k db
    Reach-perform now (run c) db = elim (Bool-cases (stands_alone c)) [
      | inl alone ↦ rw alone (Reach-commit_statement now c db)
      | inr other ↦ rw other here
    ]
    Reach-perform now (create row) db = Reach-insert_transaction row db
    Reach-perform now (elsewhere owners inbox n) db = aside here refl

    pub Reach-run_history :
        (history : List (Time × Call)) (db : Db)
        → Reach admits db (run_history py admits history db)
    unfolding run_history
    Reach-run_history [] db = here
    Reach-run_history ((now, c) ∷ rest) db =
        Reach-trans (Reach-perform now c db) (Reach-run_history rest (perform py admits now c db).0)
