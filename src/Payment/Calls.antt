-- ===== src/Payment/Calls.antt =====
-- The calls of `PaymentOperationDao` as values, so that a history is a list of them: requests,
-- workers and sweepers act on one table in any order
-- (src/infrastructure/database/dao/payment_operation.py).
pub mod Rows
use remnashop.Prelude.{ℕ, Bool, true, false, Option, List, [], ◌∷◌}
use remnashop.Prelude.Result.{Result, ok, err}
use remnashop.Payment.Operation.{
  Time, Text, Json, OperationKind, RecoveryMode, ErrorCode, PaymentOperation, Transaction, Owner,
  Db, DaoError,
}
use remnashop.Payment.Dao.Defs.{Statement, execute}
use remnashop.Payment.Dao.Claims
use remnashop.Payment.Dao.Processing
use remnashop.Payment.Dao.Reconciliation
use remnashop.Payment.Dao.Held
use remnashop.Payment.Dao.Alerts

-- the methods that run one statement
pub data StatementCall : Type 0 where
  reclaim_claimed : ℕ → ℕ → StatementCall
  delete_expired_claimed delete_claimed : ℕ → StatementCall
  mark_processing :
      ℕ → ℕ → Text → Json → Json → Option Text → RecoveryMode → Option ℕ → StatementCall
  checkpoint_provider_result : ℕ → Json → StatementCall
  link_transaction : ℕ → ℕ → StatementCall
  complete : ℕ → Json → StatementCall
  mark_unknown expire_processing mark_expired_provider_replay_manual : ℕ → StatementCall
  mark_exhausted_reconciliation_manual : ℕ → ℕ → StatementCall
  expire_reconciliations : (ℕ → Bool) → ℕ → StatementCall
  release_reconciliation : ℕ → Text → ℕ → ErrorCode → StatementCall
  checkpoint_reconciliation_result : ℕ → Text → Json → StatementCall
  mark_manual_required : ℕ → Text → ErrorCode → StatementCall
  link_manual_reconciliation : ℕ → Text → ℕ → ErrorCode → StatementCall
  link_pending_fulfillment_reconciliation : ℕ → Text → ℕ → Json → ℕ → StatementCall
  complete_reconciliation : ℕ → Text → ℕ → Json → Option Json → StatementCall
  claim_manual_reconciliation_alerts : (ℕ → Bool) → Text → ℕ → ℕ → StatementCall
  mark_reconciliation_alerted : ℕ → Text → StatementCall
  release_reconciliation_alert : ℕ → Text → ℕ → StatementCall

unfoldable pub statement : Time → StatementCall → Db → Statement
unfolding Claims.reclaim_claimed Claims.delete_expired_claimed Claims.delete_claimed
    Processing.mark_processing Processing.checkpoint_provider_result Processing.link_transaction
    Processing.complete Processing.completable Processing.mark_unknown Processing.expire_processing
    Reconciliation.mark_expired_provider_replay_manual
    Reconciliation.mark_exhausted_reconciliation_manual Reconciliation.expire_reconciliations
    Held.release_reconciliation Held.checkpoint_reconciliation_result Held.mark_manual_required
    Held.link_manual_reconciliation Held.link_pending_fulfillment_reconciliation
    Held.complete_reconciliation Alerts.claim_manual_reconciliation_alerts
    Alerts.mark_reconciliation_alerted Alerts.release_reconciliation_alert
statement now (reclaim_claimed i d) db = Claims.reclaim_claimed now i d
statement now (delete_expired_claimed i) db = Claims.delete_expired_claimed now i
statement now (delete_claimed i) db = Claims.delete_claimed i
statement now (mark_processing i d g s p h m v) db = Processing.mark_processing now i d g s p h m v
statement now (checkpoint_provider_result i x) db = Processing.checkpoint_provider_result now i x
statement now (link_transaction i t) db = Processing.link_transaction now i t
statement now (complete i x) db = Processing.complete now i x db
statement now (mark_unknown i) db = Processing.mark_unknown now i
statement now (expire_processing i) db = Processing.expire_processing now i
statement now (mark_expired_provider_replay_manual i) db =
    Reconciliation.mark_expired_provider_replay_manual now i
statement now (mark_exhausted_reconciliation_manual i n) db =
    Reconciliation.mark_exhausted_reconciliation_manual now i n
statement now (expire_reconciliations free n) db =
    Reconciliation.expire_reconciliations free now n db
statement now (release_reconciliation i k d e) db = Held.release_reconciliation now i k d e
statement now (checkpoint_reconciliation_result i k x) db =
    Held.checkpoint_reconciliation_result now i k x
statement now (mark_manual_required i k e) db = Held.mark_manual_required now i k e
statement now (link_manual_reconciliation i k t e) db = Held.link_manual_reconciliation now i k t e
statement now (link_pending_fulfillment_reconciliation i k t x d) db =
    Held.link_pending_fulfillment_reconciliation now i k t x d
statement now (complete_reconciliation i k t x y) db = Held.complete_reconciliation now i k t x y
statement now (claim_manual_reconciliation_alerts free k d n) db =
    Alerts.claim_manual_reconciliation_alerts free now k d n db
statement now (mark_reconciliation_alerted i k) db = Alerts.mark_reconciliation_alerted now i k
statement now (release_reconciliation_alert i k d) db =
    Alerts.release_reconciliation_alert now i k d

-- A call of the interface; `elsewhere` is what the other tables become by other code.
pub data Call : Type 0 where
  claim : ℕ → OperationKind → Text → Text → Text → ℕ → Call
  claim_reconciliation : ℕ → Text → ℕ → Call
  run_statement : StatementCall → Call
  elsewhere : List Transaction → List Owner → Call

-- the Boolean that a call answered, `false` where it raised
answered : Result DaoError Bool → Bool
answered (ok b) = b
answered (err _) = false

created : Result DaoError (PaymentOperation × Bool) → Bool
created (ok (_, b)) = b
created (err _) = false

unfoldable pub step : Time → Call → Db → Db × Bool
unfolding execute answered created
step now (claim u o k h p d) db = let (db', r) = Claims.claim now u o k h p d db in (db', created r)
step now (claim_reconciliation i k d) db =
    let (db', r) = Reconciliation.claim_reconciliation now i k d db in (db', answered r)
step now (run_statement c) db = execute (statement now c db) db
step now (elsewhere transactions owners) db =
    (record db { transactions = transactions; owners = owners }, true)

-- A history: the calls, each with its instant.
unfoldable pub run : List (Time × Call) → Db → Db
unfolding step
run [] db = db
run ((now, c) ∷ rest) db = run rest (step now c db).0
