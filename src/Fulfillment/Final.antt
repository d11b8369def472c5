-- ===== src/Fulfillment/Final.antt =====
-- What is final in `transactions`: a refund, and a proof that the purchase went through
-- (src/infrastructure/database/dao/transaction.py).
use remnashop.Prelude.{◌≡◌, ◌≤◌, List, ◌&&◌, Bool, true, arith, ℕ, ◌==◌, Time}
use remnashop.Prelude.Tables.{count_where}
use remnashop.Fulfillment.Row.{Transaction, refunded, fulfilled, status_eq, fulfillment_eq}
use remnashop.Fulfillment.Statements.Laws.{count-update_ge, count-appended, run-runs}
use remnashop.Fulfillment.Statements.Events.{
  set_payment_method_if_absent_or_equal, transition_refunded, cancel_by_provider, claim_fulfillment,
  mark_refund_manual_required, cancel_old,
}
use remnashop.Fulfillment.Statements.Fence.{
  complete_fulfillment, mark_fulfillment_manual_required, release_unapplied_fulfillment,
  expire_fulfillment, expire_fulfillments, expire_merged_fulfillments,
}
use remnashop.Fulfillment.Statements.Alerts.{
  claim_manual_fulfillment_alerts, mark_fulfillment_alerted, release_fulfillment_alert,
}
use remnashop.Fulfillment.Db.{Db}
use remnashop.Fulfillment.Calls.{
  statement, StatementCall, set_method, refund, provider_cancel, mark_refund, expire, claim,
  complete, release, mark_manual, mark_alerted, expire_all, expire_merged, claim_alerts,
  release_alert, time_out, Call, run_history,
}
use remnashop.Fulfillment.Calls.Reach.{Reach, here, ran, added, aside}
use remnashop.Fulfillment.Calls.Reach.Histories.{Reach-run_history}
use remnashop.Prelude.{ltb, eq_col}
use remnashop.Fulfillment.Process.{PyText}

abbrev is_refund : ℕ → Transaction → Bool
is_refund p r = r.payment_id == p && status_eq r.status refunded

abbrev is_proof : ℕ → Time → Transaction → Bool
is_proof p at r =
    r.payment_id == p
    && fulfillment_eq r.fulfillment_status fulfilled
    && eq_col r.fulfillment_completed_at at

-- a refund, or a proof that the purchase went through at an instant
pub data Outcome : Type 0 where
  refund_made : Outcome
  purchase_made : (at : Time) → Outcome

abbrev is_outcome : ℕ → Outcome → Transaction → Bool
is_outcome p refund_made = is_refund p
is_outcome p (purchase_made at) = is_proof p at

-- whether a payment has an outcome
unfoldable pub has_outcome : ℕ → Outcome → Db → Bool
has_outcome p o db = ltb 0 (count_where (is_outcome p o) db.transactions)

refund-kept :
    (p : ℕ) (now : Time) (c : StatementCall) (rows : List Transaction) (r : Transaction)
    → (statement now c rows).test r ≡ true
    → is_refund p r ≡ true
    → is_refund p ((statement now c rows).set r) ≡ true
unfolding statement set_payment_method_if_absent_or_equal transition_refunded cancel_by_provider
    mark_refund_manual_required expire_fulfillment claim_fulfillment complete_fulfillment
    release_unapplied_fulfillment cancel_old mark_fulfillment_manual_required expire_fulfillments
    expire_merged_fulfillments claim_manual_fulfillment_alerts mark_fulfillment_alerted
    release_fulfillment_alert
refund-kept q now (set_method p m) rows r t h = ground arith
refund-kept q now (refund p) rows r t h = ground arith
refund-kept q now (provider_cancel p) rows r t h = ground arith
refund-kept q now (mark_refund p) rows r t h = ground arith
refund-kept q now (expire p) rows r t h = ground arith
refund-kept q now (claim p k) rows r t h = ground arith
refund-kept q now (complete p k) rows r t h = ground arith
refund-kept q now (release p k) rows r t h = ground arith
refund-kept q now (time_out m) rows r t h = ground arith
refund-kept q now (mark_manual p k e) rows r t h = ground arith
refund-kept q now (expire_all free n) rows r t h = ground arith
refund-kept q now (expire_merged u v) rows r t h = ground arith
refund-kept q now (claim_alerts free k d n) rows r t h = ground arith
refund-kept q now (mark_alerted p k) rows r t h = ground arith
refund-kept q now (release_alert p k d) rows r t h = ground arith

proof-kept :
    (p : ℕ) (at : Time) (now : Time) (c : StatementCall) (rows : List Transaction) (r : Transaction)
    → (statement now c rows).test r ≡ true
    → is_proof p at r ≡ true
    → is_proof p at ((statement now c rows).set r) ≡ true
unfolding statement set_payment_method_if_absent_or_equal transition_refunded cancel_by_provider
    mark_refund_manual_required expire_fulfillment claim_fulfillment complete_fulfillment
    release_unapplied_fulfillment cancel_old mark_fulfillment_manual_required expire_fulfillments
    expire_merged_fulfillments claim_manual_fulfillment_alerts mark_fulfillment_alerted
    release_fulfillment_alert
proof-kept q at now (set_method p m) rows r t h = ground arith
proof-kept q at now (refund p) rows r t h = ground arith
proof-kept q at now (provider_cancel p) rows r t h = ground arith
proof-kept q at now (mark_refund p) rows r t h = ground arith
proof-kept q at now (expire p) rows r t h = ground arith
proof-kept q at now (claim p k) rows r t h = ground arith
proof-kept q at now (complete p k) rows r t h = ground arith
proof-kept q at now (release p k) rows r t h = ground arith
proof-kept q at now (time_out m) rows r t h = ground arith
proof-kept q at now (mark_manual p k e) rows r t h = ground arith
proof-kept q at now (expire_all free n) rows r t h = ground arith
proof-kept q at now (expire_merged u v) rows r t h = ground arith
proof-kept q at now (claim_alerts free k d n) rows r t h = ground arith
proof-kept q at now (mark_alerted p k) rows r t h = ground arith
proof-kept q at now (release_alert p k d) rows r t h = ground arith

-- A kind of row that every statement keeps does not die out.
module _ (admits : Transaction → Bool) (key : Transaction → Bool)
    (kept : (now : Time) (c : StatementCall) (rows : List Transaction) (r : Transaction)
      → (statement now c rows).test r ≡ true
      → key r ≡ true
      → key ((statement now c rows).set r) ≡ true) where
  kept-Reach :
      {s u : Db}
      → Reach admits s u
      → count_where key s.transactions ≤ count_where key u.transactions
  kept-Reach here = omega arith
  kept-Reach (ran {t} {u} r now c hit e) =
      let s = statement now c t.transactions in
      let (free, rows, answer, owners) = run-runs admits s t u hit e in
      rw rows (
        omega (
          arith,
          kept-Reach r,
          count-update_ge admits s key (λ x. kept now c t.transactions x) t.transactions,
        ))
  kept-Reach (added {t} {u} r row absent fits rows) =
      rw rows (omega (arith, kept-Reach r, count-appended key t.transactions row))
  kept-Reach (aside r rows) = rw rows (kept-Reach r)

outcome-kept :
    (p : ℕ) (o : Outcome) (now : Time) (c : StatementCall) (rows : List Transaction)
    (r : Transaction)
    → (statement now c rows).test r ≡ true
    → is_outcome p o r ≡ true
    → is_outcome p o ((statement now c rows).set r) ≡ true
outcome-kept p refund_made now c rows r t h = refund-kept p now c rows r t h
outcome-kept p (purchase_made at) now c rows r t h = proof-kept p at now c rows r t h

-- A refund is final, and so is the proof that the purchase went through, with its instant: whatever
-- events, ends of runs, sweeps, alerts, timeouts, merges of users and new transactions follow, and
-- whichever rows the database refuses, a payment that has the outcome still has it.
pub outcome_final :
    (py : PyText) (admits : Transaction → Bool) (p : ℕ) (o : Outcome) (history : List (Time × Call))
    (db : Db)
    → has_outcome p o db ≡ true
    → has_outcome p o (run_history py admits history db) ≡ true
unfolding has_outcome
outcome_final py admits p o history db h =
    let kept =
      kept-Reach admits (is_outcome p o) (outcome-kept p o)
        (Reach-run_history admits py history db) in
    ground arith
