-- ===== src/Fulfillment/Tests.antt =====
-- Examples of the processing of payments (src/application/use_cases/gateways/commands/payment.py).
mod Inbox
use remnashop.Fulfillment.Worker.{event_of, process_payment}
use remnashop.Fulfillment.Worker.Kept.{events_with, is_done, kept_until_done}
use remnashop.Prelude.{◌&&◌, ◌==◌}
use remnashop.Fulfillment.Settle.{raised}
use remnashop.Prelude.{
  ◌≡◌, ◌≤◌, ◌<◌, ◌+◌, List, [], ◌∷◌, ◌++◌, ◌&&◌, ◌||◌, not, refl, Bool, true, false, Option, none,
  some, Bool-cases, Option-cases, inl, inr, arith, ℕ, ◌==◌, if◌then◌else◌, All, ==→eq, ==-refl,
  Time, Text, is_null, is_not_null,
}
use remnashop.Prelude.Result.{ok, err}
use remnashop.Prelude.Tables.{update_where, count_where, find_where}
use remnashop.Fulfillment.Row.{
  Transaction, completed, refunded, pending, failed, not_started, fulfillment_manual, admissible,
  fulfillment_state, cancellation_state,
}
use remnashop.Fulfillment.Statements.Fence.{expire_fulfillments}
use remnashop.Fulfillment.Statements.Alerts.{claim_manual_fulfillment_alerts}
use remnashop.Fulfillment.Db.{Db, run_statement, get_by_payment_id, lock_active_payment_owner}
use remnashop.Fulfillment.Calls.{
  statement, claim, Call, deliver, finish, sweep, perform, run_history, fulfillments_begun,
}
use remnashop.Prelude.{ltb, ap, sym}
use remnashop.Fulfillment.Inbox.{WebhookEvent, has_identity, claim_webhook_event_by_identity}
use remnashop.Fulfillment.Worker.{webhook_processing_lease, handle_payment_transaction}
use remnashop.Fulfillment.Worker.Alone.{second_worker_returns}
use remnashop.Fulfillment.Row.{Owner}
use remnashop.Fulfillment.Checks.{IsAdmissible, never_refused, deferral_refused}
use remnashop.Fulfillment.Once.{fulfilled_at_most_once}
use remnashop.Fulfillment.Final.{purchase_made, has_outcome, outcome_final}
use remnashop.Fulfillment.Retry.{retry_failed_transaction, retry_never_fulfils}
use remnashop.Fulfillment.Progress.{IsKnown, claimed_row, fulfilled_row, paid_payment_is_settled}
use remnashop.Fulfillment.Redelivery.{redelivery_changes_nothing}
use remnashop.Fulfillment.Process.{
  PaymentEvent, ProcessError, PyText, finished, fulfil, receive, refused,
}
use remnashop.Fulfillment.Settle.{settle, applied, unreachable}

-- texts without blanks, of one character
abbrev plain : PyText
plain = record { strip = λ t. t; len = λ t. 1; is_printable = λ t. true }

abbrev owner : Owner
owner = record { id = 5; merged_into_user_id = none }

-- a pending payment of 9, of the gateway 2
abbrev unpaid : Transaction
unpaid = record {
  id = 1;
  payment_id = 9;
  user_id = 5;
  status = pending;
  cancellation_reason = none;
  is_test = false;
  gateway_type = 2;
  payment_method = none;
  fulfillment_status = not_started;
  fulfillment_token_hash = none;
  fulfillment_started_at = none;
  fulfillment_lease_expires_at = none;
  fulfillment_completed_at = none;
  fulfillment_last_error = none;
  fulfillment_alerted_at = none;
  fulfillment_alert_token_hash = none;
  fulfillment_alert_lease_expires_at = none;
  fulfillment_alert_attempt_count = 0;
  fulfillment_alert_next_attempt_at = none;
  created_at = 0;
}

abbrev broken : Transaction
broken = record unpaid {
  status = failed;
  fulfillment_status = fulfillment_manual;
  fulfillment_started_at = some 3;
}

abbrev shop : Transaction → Db
shop t = record { transactions = t ∷ []; owners = owner ∷ []; inbox = []; next_event_id = 0 }

abbrev success : PaymentEvent
success = record {
  payment_id = 9;
  new_status = completed;
  gateway_type = 2;
  selected_payment_method = none;
  defer_unreachable_fulfillment = true;
}

unpaid-IsKnown : IsKnown 9 unpaid (shop unpaid)
unfolding get_by_payment_id find_where count_where admissible fulfillment_state cancellation_state
unpaid-IsKnown = record { unique = omega arith; checked = (refl, tt); found = refl }

claimed-IsKnown : IsKnown 9 (claimed_row 10 77 unpaid) (shop (claimed_row 10 77 unpaid))
unfolding get_by_payment_id find_where count_where admissible fulfillment_state cancellation_state
claimed-IsKnown = record { unique = omega arith; checked = (refl, tt); found = refl }

active : lock_active_payment_owner 9 (shop unpaid) ≡ true
unfolding lock_active_payment_owner get_by_payment_id find_where
active = refl

active_claimed : lock_active_payment_owner 9 (shop (claimed_row 10 77 unpaid)) ≡ true
unfolding lock_active_payment_owner get_by_payment_id find_where
active_claimed = refl

-- a payment that is paid twice and whose first run cannot reach the panel
abbrev rough_history : List (Time × Call)
rough_history =
    (10, deliver 77 success)
    ∷ (20, finish 77 9 false true unreachable)
    ∷ (30, deliver 78 success)
    ∷ (1800000040, sweep (λ id. true) 5)
    ∷ (1800000050, deliver 79 success)
    ∷ []

fulfilled_at_most_once_example :
    fulfillments_begun plain admissible 9 rough_history (shop unpaid) ≤ 1
fulfilled_at_most_once_example =
    fulfilled_at_most_once plain 9 rough_history (shop unpaid) unpaid-IsKnown.unique

fulfillments_begun_once : fulfillments_begun plain admissible 9 rough_history (shop unpaid) ≡ 1
unfolding fulfillments_begun perform admissible receive find_where count_where update_where
    expire_fulfillments remnashop.Prelude.Tables.order_by remnashop.Prelude.Tables.select_where
    claim_manual_fulfillment_alerts
fulfillments_begun_once = refl

abbrev settled_row : Transaction
settled_row = fulfilled_row 10 15 unpaid

abbrev refund_event : PaymentEvent
refund_event = record success { new_status = refunded }

settled_row-outcome : has_outcome 9 (purchase_made 15) (shop settled_row) ≡ true
unfolding has_outcome count_where
settled_row-outcome = refl

outcome_final_example :
    has_outcome 9 (purchase_made 15) (
      run_history plain admissible
        ((30, deliver 78 refund_event) ∷ rough_history)
        (shop settled_row))
    ≡ true
outcome_final_example =
    outcome_final plain admissible 9 (purchase_made 15)
      ((30, deliver 78 refund_event) ∷ rough_history) (shop settled_row) settled_row-outcome

never_refused_example :
    let s = statement 10 (claim 9 77) (shop unpaid).transactions in
    let (rows, n) = update_where s.test s.set (shop unpaid).transactions in
    (run_statement admissible s (shop unpaid)
      ≡ some (record (shop unpaid) { transactions = rows }, ltb 0 n))
    × All IsAdmissible rows
never_refused_example = never_refused 10 (claim 9 77) (shop unpaid) refl unpaid-IsKnown.checked

deferral_refused_example :
    settle admissible 20 77 9 false true unreachable (shop (claimed_row 10 77 unpaid))
    ≡ (shop (claimed_row 10 77 unpaid), err refused)
deferral_refused_example =
    deferral_refused 20 77 9 false (shop (claimed_row 10 77 unpaid)) (claimed_row 10 77 unpaid)
      claimed-IsKnown.found refl

broken-IsKnown : IsKnown 9 broken (shop broken)
unfolding get_by_payment_id find_where count_where admissible fulfillment_state cancellation_state
broken-IsKnown = record { unique = omega arith; checked = (refl, tt); found = refl }

retry_never_fulfils_example :
    (e : ProcessError) × (retry_failed_transaction plain admissible 40 78 9 (shop broken)
      ≡ (shop broken, err e))
retry_never_fulfils_example =
    retry_never_fulfils plain admissible 40 78 9 (shop broken) broken-IsKnown.unique
      broken-IsKnown.checked

paid_payment_is_settled_example :
    let (begun, won) = receive plain admissible 10 77 success (shop unpaid) in
    let (ended, result) =
      settle admissible 15 77 9 false true applied (shop (claimed_row 10 77 unpaid)) in
    (won ≡ ok (fulfil false))
    × IsKnown 9 (claimed_row 10 77 unpaid) begun
    × (result ≡ ok tt)
    × IsKnown 9 (fulfilled_row 10 15 unpaid) ended
paid_payment_is_settled_example =
    paid_payment_is_settled plain 10 15 77 success unpaid (shop unpaid)
      (shop (claimed_row 10 77 unpaid)) unpaid-IsKnown refl active refl refl refl refl
      claimed-IsKnown (omega arith)

redelivery_changes_nothing_example :
    receive plain admissible 20 78 success (shop (claimed_row 10 77 unpaid))
    ≡ (shop (claimed_row 10 77 unpaid), ok finished)
redelivery_changes_nothing_example =
    redelivery_changes_nothing plain 20 78 success (claimed_row 10 77 unpaid)
      (shop (claimed_row 10 77 unpaid)) claimed-IsKnown refl active_claimed refl refl refl refl
