-- ===== src/Fulfillment/Calls.antt =====
-- The statements on `transactions` by name, the calls of the program that make them, and the run of a
-- history of calls (src/application/use_cases/gateways/commands/payment.py,
-- src/application/use_cases/misc/commands/maintenance.py).
pub mod Reach
pub mod Kept
pub mod Won
use remnashop.Prelude.{
  ℕ, ◌+◌, Time, Text, Bool, true, false, ◌&&◌, Option, none, some, List, [], ◌∷◌, ◌++◌, ◌==◌,
  if◌then◌else◌, is_null,
}
use remnashop.Prelude.Result.{Result, ok, err}
use remnashop.Fulfillment.Row.{ErrorCode, Owner, Transaction}
use remnashop.Fulfillment.Inbox.{WebhookEvent}
use remnashop.Fulfillment.Statements.{Statement}
use remnashop.Fulfillment.Statements.Events.{
  set_payment_method_if_absent_or_equal, transition_refunded, cancel_by_provider, claim_fulfillment,
  mark_refund_manual_required, cancel_old,
}
use remnashop.Fulfillment.Statements.Fence.{
  complete_fulfillment, mark_fulfillment_manual_required, release_unapplied_fulfillment,
  expire_fulfillment, expire_fulfillments, expire_merged_fulfillments,
}
use remnashop.Fulfillment.Statements.Alerts.{
  claim_manual_fulfillment_alerts, mark_fulfillment_alerted, release_fulfillment_alert,
}
use remnashop.Fulfillment.Db.{Db, get_by_payment_id, run_statement}
use remnashop.Fulfillment.Process.{
  PaymentEvent, ProcessError, PyText, Next, fulfil, fulfillment_lease, receive,
}
use remnashop.Fulfillment.Settle.{SideEffect, settle}

-- A statement on `transactions`, by the method of the DAO that makes it. The methods `update`,
-- `update_status` and `transition_status`, which nothing in the program calls, are left out.
pub data StatementCall : Type 0 where
  set_method : (payment_id : ℕ) (payment_method : Text) → StatementCall
  refund provider_cancel mark_refund expire : (payment_id : ℕ) → StatementCall
  claim complete release : (payment_id : ℕ) (token_hash : Text) → StatementCall
  time_out : (minutes : ℕ) → StatementCall
  mark_manual : (payment_id : ℕ) (token_hash : Text) (error_code : ErrorCode) → StatementCall
  expire_all : (free : ℕ → Bool) (limit : ℕ) → StatementCall
  expire_merged : (source_user_id target_user_id : ℕ) → StatementCall
  claim_alerts : (free : ℕ → Bool) (token_hash : Text) (lease_for limit : ℕ) → StatementCall
  mark_alerted : (payment_id : ℕ) (token_hash : Option Text) → StatementCall
  release_alert : (payment_id : ℕ) (token_hash : Text) (retry_after : ℕ) → StatementCall

unfoldable pub statement : Time → StatementCall → List Transaction → Statement
statement now (set_method p m) rows = set_payment_method_if_absent_or_equal p m
statement now (refund p) rows = transition_refunded p
statement now (provider_cancel p) rows = cancel_by_provider p
statement now (mark_refund p) rows = mark_refund_manual_required p
statement now (expire p) rows = expire_fulfillment now p
statement now (claim p k) rows = claim_fulfillment now p k fulfillment_lease
statement now (complete p k) rows = complete_fulfillment now p k
statement now (release p k) rows = release_unapplied_fulfillment now p k
statement now (time_out minutes) rows = cancel_old now minutes
statement now (mark_manual p k code) rows = mark_fulfillment_manual_required p k code
statement now (expire_all free limit) rows = expire_fulfillments free now limit rows
statement now (expire_merged s t) rows = expire_merged_fulfillments now s t
statement now (claim_alerts free k d limit) rows =
    claim_manual_fulfillment_alerts free now k d limit rows
statement now (mark_alerted p k) rows = mark_fulfillment_alerted now p k
statement now (release_alert p k d) rows = release_fulfillment_alert now p k d

-- A call: what runs between two commits, or a whole `receive` or `settle`.
pub data Call : Type 0 where
  deliver : (token_hash : Text) (event : PaymentEvent) → Call
  finish : (token_hash : Text) (payment_id : ℕ) (conflict defer : Bool) (effect : SideEffect) → Call
  -- the first transaction of `SweepPaymentFulfillments`
  sweep : (free : ℕ → Bool) (token_hash : Text) → Call
  -- `CancelOldTransactions`, the end of an alert, a cancel of the reconciliation, a merge of users
  run : (c : StatementCall) → Call
  create : (row : Transaction) → Call
  -- a change of the other tables
  elsewhere : (owners : List Owner) (inbox : List WebhookEvent) (next_event_id : ℕ) → Call

-- ALERT_LEASE and FULFILLMENT_SWEEP_BATCH
abbrev pub alert_lease : ℕ
alert_lease = 300000000

abbrev pub fulfillment_sweep_batch : ℕ
fulfillment_sweep_batch = 100

-- The statements that stand alone in a transaction. A claim does not: `receive` makes it.
abbrev pub stands_alone : StatementCall → Bool
stands_alone (time_out minutes) = true
stands_alone (mark_alerted p k) = true
stands_alone (release_alert p k d) = true
stands_alone (provider_cancel p) = true
stands_alone (expire_merged s t) = true
stands_alone _ = false

-- a payment id is unique
unfoldable pub insert_transaction : (Transaction → Bool) → Transaction → Db → Db
unfolding get_by_payment_id
insert_transaction admits row db =
    if is_null (get_by_payment_id row.payment_id db) && admits row
    then record db { transactions = db.transactions ++ row ∷ [] }
    else db

abbrev pub is_won : Result ProcessError Next → Bool
is_won (ok (fulfil conflict)) = true
is_won (ok _) = false
is_won (err e) = false

abbrev pub payment_of : Call → ℕ → Bool
payment_of (deliver token_hash event) payment_id = event.payment_id == payment_id
payment_of _ payment_id = false

module _ (py : PyText) (admits : Transaction → Bool) where
  -- a statement, and no change where it is refused
  unfoldable pub commit_statement : Time → StatementCall → Db → Db
  unfolding run_statement statement
  commit_statement now c db = elim (run_statement admits (statement now c db.transactions) db) [
    | none ↦ db
    | some (db', hit) ↦ db'
  ]

  unfoldable pub run_sweep : Time → (ℕ → Bool) → Text → Db → Db
  unfolding run_statement statement
  run_sweep now free token_hash db =
      elim (run_statement admits
        (statement now (expire_all free fulfillment_sweep_batch) db.transactions) db) [
          | none ↦ db
          | some (db', expired) ↦
              elim (run_statement admits
                (statement now (claim_alerts free token_hash alert_lease fulfillment_sweep_batch)
                  db'.transactions)
                db') [ none ↦ db | some (db'', claimed) ↦ db'' ]
        ]

  -- the database after a call, and whether the call begins a fulfilment
  unfoldable pub perform : Time → Call → Db → Db × Bool
  unfolding receive settle run_sweep commit_statement insert_transaction
  perform now (deliver token_hash event) db =
      let (db', result) = receive py admits now token_hash event db in (db', is_won result)
  perform now (finish token_hash payment_id conflict defer effect) db =
      ((settle admits now token_hash payment_id conflict defer effect db).0, false)
  perform now (sweep free token_hash) db = (run_sweep now free token_hash db, false)
  perform now (run c) db = (if stands_alone c then commit_statement now c db else db, false)
  perform now (create row) db = (insert_transaction admits row db, false)
  perform now (elsewhere owners inbox next_event_id) db =
      (record db { owners = owners; inbox = inbox; next_event_id = next_event_id }, false)

  unfoldable pub run_history : List (Time × Call) → Db → Db
  unfolding perform
  run_history [] db = db
  run_history ((now, c) ∷ rest) db = run_history rest (perform now c db).0

  -- how many fulfilments of a payment a history begins
  unfoldable pub fulfillments_begun : ℕ → List (Time × Call) → Db → ℕ
  unfolding perform
  fulfillments_begun payment_id [] db = 0
  fulfillments_begun payment_id ((now, c) ∷ rest) db =
      let (db', begun) = perform now c db in
      (if payment_of c payment_id && begun then 1 else 0) + fulfillments_begun payment_id rest db'
