-- ===== src/Fulfillment/Calls/Kept.antt =====
-- What the statements on `transactions` leave of a row: its payment id, and that it cannot be claimed
-- (src/infrastructure/database/dao/transaction.py).
use remnashop.Prelude.{◌≡◌, List, refl, Bool, true, arith, ℕ, ◌==◌, Time}
use remnashop.Fulfillment.Row.{Transaction, admissible, fulfillment_state, cancellation_state}
use remnashop.Fulfillment.Statements.Events.{
  set_payment_method_if_absent_or_equal, transition_refunded, cancel_by_provider, claim_fulfillment,
  mark_refund_manual_required, cancel_old, claimable,
}
use remnashop.Fulfillment.Statements.Fence.{
  complete_fulfillment, mark_fulfillment_manual_required, release_unapplied_fulfillment,
  expire_fulfillment, expire_fulfillments, expire_merged_fulfillments,
}
use remnashop.Fulfillment.Statements.Alerts.{
  claim_manual_fulfillment_alerts, mark_fulfillment_alerted, release_fulfillment_alert,
}
use remnashop.Fulfillment.Calls.{
  statement, StatementCall, set_method, refund, provider_cancel, mark_refund, expire, claim,
  complete, release, mark_manual, mark_alerted, expire_all, expire_merged, claim_alerts,
  release_alert, time_out,
}

abbrev pub of_payment : ℕ → Transaction → Bool
of_payment p r = r.payment_id == p

pub payment_id-kept :
    (now : Time) (c : StatementCall) (rows : List Transaction) (r : Transaction)
    → ((statement now c rows).set r).payment_id ≡ r.payment_id
unfolding statement set_payment_method_if_absent_or_equal transition_refunded cancel_by_provider
    mark_refund_manual_required expire_fulfillment claim_fulfillment complete_fulfillment
    release_unapplied_fulfillment cancel_old mark_fulfillment_manual_required expire_fulfillments
    expire_merged_fulfillments claim_manual_fulfillment_alerts mark_fulfillment_alerted
    release_fulfillment_alert
payment_id-kept now (set_method p m) rows r = refl
payment_id-kept now (refund p) rows r = refl
payment_id-kept now (provider_cancel p) rows r = refl
payment_id-kept now (mark_refund p) rows r = refl
payment_id-kept now (expire p) rows r = refl
payment_id-kept now (claim p k) rows r = refl
payment_id-kept now (complete p k) rows r = refl
payment_id-kept now (release p k) rows r = refl
payment_id-kept now (time_out m) rows r = refl
payment_id-kept now (mark_manual p k e) rows r = refl
payment_id-kept now (expire_all free n) rows r = refl
payment_id-kept now (expire_merged u v) rows r = refl
payment_id-kept now (claim_alerts free k d n) rows r = refl
payment_id-kept now (mark_alerted p k) rows r = refl
payment_id-kept now (release_alert p k d) rows r = refl

-- No statement that the CHECKs admit makes a row claimable.
pub claimable-kept :
    (now : Time) (c : StatementCall) (rows : List Transaction) (r : Transaction)
    → (statement now c rows).test r ≡ true
    → admissible ((statement now c rows).set r) ≡ true
    → claimable ((statement now c rows).set r) ≡ true
    → claimable r ≡ true
unfolding statement admissible fulfillment_state cancellation_state
    set_payment_method_if_absent_or_equal transition_refunded cancel_by_provider
    mark_refund_manual_required expire_fulfillment claim_fulfillment complete_fulfillment
    release_unapplied_fulfillment cancel_old mark_fulfillment_manual_required expire_fulfillments
    expire_merged_fulfillments claim_manual_fulfillment_alerts mark_fulfillment_alerted
    release_fulfillment_alert
claimable-kept now (set_method p m) rows r t a claimed = ground arith
claimable-kept now (refund p) rows r t a claimed = ground arith
claimable-kept now (provider_cancel p) rows r t a claimed = ground arith
claimable-kept now (mark_refund p) rows r t a claimed = ground arith
claimable-kept now (expire p) rows r t a claimed = ground arith
claimable-kept now (claim p k) rows r t a claimed = ground arith
claimable-kept now (complete p k) rows r t a claimed = ground arith
claimable-kept now (release p k) rows r t a claimed = ground arith
claimable-kept now (time_out m) rows r t a claimed = ground arith
claimable-kept now (mark_manual p k e) rows r t a claimed = ground arith
claimable-kept now (expire_all free n) rows r t a claimed = ground arith
claimable-kept now (expire_merged u v) rows r t a claimed = ground arith
claimable-kept now (claim_alerts free k d n) rows r t a claimed = ground arith
claimable-kept now (mark_alerted p k) rows r t a claimed = ground arith
claimable-kept now (release_alert p k d) rows r t a claimed = ground arith
