-- ===== src/Fulfillment/Process.antt =====
-- `ProcessPayment` up to the claim of the fulfilment: what an event of a provider does
-- (src/application/use_cases/gateways/commands/payment.py). A raise undoes what was not committed;
-- what a plain return leaves uncommitted stays in the session, and the callers commit it next.
-- Notifications are left out. Payment ids are unique, so a statement on one meets one row at most.
mod Event
pub use remnashop.Fulfillment.Process.Event.{
  PaymentEvent, ProcessError, PyText, fulfillment_lease, Next, normalize_platega_payment_method,
  not_ready, not_applied, owner_unavailable, refused, unexpected, deferred, purchase_failed,
  not_found, not_retryable, finished, fulfil, escalate, notify_refund,
}
use remnashop.Prelude.{
  ℕ, suc, Time, Text, Bool, false, not, ◌&&◌, ◌||◌, Option, none, some, ◌==◌, leb, if◌then◌else◌,
  is_null,
}
use remnashop.Prelude.Result.{Result, ok, err}
use remnashop.Fulfillment.Row.{
  Status, pending, completed, canceled, refunded, failed, FulfillmentStatus, not_started,
  fulfilling, fulfilled, fulfillment_manual, Transaction, status_eq, fulfillment_eq, is_by_provider,
}
use remnashop.Fulfillment.Statements.Events.{
  platega, set_payment_method_if_absent_or_equal, transition_refunded, cancel_by_provider,
  claim_fulfillment, mark_refund_manual_required,
}
use remnashop.Fulfillment.Statements.Fence.{expire_fulfillment}
use remnashop.Fulfillment.Statements.Alerts.{mark_fulfillment_alerted}
use remnashop.Fulfillment.Inbox.{store_webhook_event}
use remnashop.Fulfillment.Db.{
  Db, get_by_payment_id, get_owner, lock_active_payment_owner, run_statement,
}

-- a return, or the error of the conflict; `before` is what a raise goes back to
unfoldable pub return_unless : Bool → Db → Db → Db × Result ProcessError Next
return_unless conflict before db = if conflict then (before, err not_applied) else (db, ok finished)

-- a cancel event that finds the transaction canceled by the provider or refunded
abbrev pub is_canceled_already : Option Transaction → Bool
is_canceled_already none = false
is_canceled_already (some t) =
    status_eq t.status canceled && is_by_provider t.cancellation_reason
    || status_eq t.status refunded

module _ (py : PyText) (admits : Transaction → Bool) where
  -- the metadata of the payment method: the database, and whether it conflicts
  unfoldable pub method_applied : Option (Option Text) → ℕ → Db → Result ProcessError (Db × Bool)
  unfolding run_statement set_payment_method_if_absent_or_equal
  method_applied none payment_id db = err not_applied
  method_applied (some none) payment_id db = err not_applied
  method_applied (some (some method)) payment_id db =
      elim (run_statement admits (set_payment_method_if_absent_or_equal payment_id method) db) [
        | none ↦ err refused
        | some (db', hit) ↦ ok (db', not hit)
      ]

  unfoldable pub apply_method : Option Text → PaymentEvent → Db → Result ProcessError (Db × Bool)
  unfolding method_applied normalize_platega_payment_method
  apply_method none event db = ok (db, false)
  apply_method (some method) event db =
      if event.gateway_type == platega
      then method_applied (normalize_platega_payment_method py method) event.payment_id db
      else err not_applied

  -- the event CANCELED
  unfoldable pub receive_canceled : Bool → ℕ → Db → Db → Db × Result ProcessError Next
  unfolding run_statement cancel_by_provider get_by_payment_id return_unless
  receive_canceled conflict payment_id before db =
      elim (run_statement admits (cancel_by_provider payment_id) db) [
        | none ↦ (before, err refused)
        | some (db', hit) ↦
            if hit
            then (db', if conflict then err not_applied else ok finished)
            else if is_canceled_already (get_by_payment_id payment_id db')
            then return_unless conflict before db'
            else (before, err not_applied)
      ]

  -- the event COMPLETED on a row that could not be claimed, by the row's state of fulfilment
  unfoldable pub lost_to :
      FulfillmentStatus → Time → Bool → Transaction → Db → Db → Db × Result ProcessError Next
  unfolding run_statement expire_fulfillment return_unless
  lost_to fulfilling now conflict t before db =
      elim (run_statement admits (expire_fulfillment now t.payment_id) db) [
        | none ↦ (before, err refused)
        | some (db', expired) ↦
            if expired then (db', ok (escalate conflict)) else return_unless conflict before db'
      ]
  lost_to fulfilled now conflict t before db = return_unless conflict before db
  lost_to fulfillment_manual now conflict t before db = (before, err not_applied)
  lost_to not_started now conflict t before db =
      if status_eq t.status refunded
      then return_unless conflict before db
      else (before, err not_applied)

  unfoldable pub lost_claim :
      Time → Bool → Option Transaction → Db → Db → Db × Result ProcessError Next
  unfolding lost_to
  lost_claim now conflict none before db = (before, err not_applied)
  lost_claim now conflict (some t) before db = lost_to t.fulfillment_status now conflict t before db

  -- the event COMPLETED
  unfoldable pub receive_completed :
      Time → Text → Bool → Transaction → Db → Db → Db × Result ProcessError Next
  unfolding run_statement claim_fulfillment lock_active_payment_owner get_by_payment_id get_owner
      lost_claim
  receive_completed now token_hash conflict t before db =
      if not (lock_active_payment_owner t.payment_id db)
      then (before, err owner_unavailable)
      else elim (run_statement admits
          (claim_fulfillment now t.payment_id token_hash fulfillment_lease) db) [
            | none ↦ (before, err refused)
            | some (db', claimed) ↦
                if claimed
                then (if is_null (get_owner t.user_id db')
                    then (before, err unexpected)
                    else (db', ok (fulfil conflict)))
                else lost_claim now conflict (get_by_payment_id t.payment_id db') before db'
          ]

  -- the event REFUNDED on a row that `transition_refunded` did not match
  unfoldable pub refund_marked :
      Bool → Bool → Option Transaction → Db → Db → Db × Result ProcessError Next
  refund_marked marked conflict none before db =
      (before, err (if marked then unexpected else not_applied))
  refund_marked marked conflict (some t) before db =
      if marked
      then (
        db,
        ok (
            if fulfillment_eq t.fulfillment_status fulfillment_manual
            then escalate conflict
            else notify_refund conflict),
      )
      else if status_eq t.status refunded
      then (
        db,
        ok (
            if fulfillment_eq t.fulfillment_status fulfillment_manual
              && is_null t.fulfillment_alerted_at
            then escalate conflict
            else notify_refund conflict),
      )
      else (before, err not_applied)

  -- the event REFUNDED
  unfoldable pub receive_refunded : Bool → ℕ → Db → Db → Db × Result ProcessError Next
  unfolding run_statement transition_refunded mark_refund_manual_required get_by_payment_id
      refund_marked
  receive_refunded conflict payment_id before db =
      elim (run_statement admits (transition_refunded payment_id) db) [
        | none ↦ (before, err refused)
        | some (db', refunded_now) ↦
            if refunded_now
            then (db', ok (notify_refund conflict))
            else elim (run_statement admits (mark_refund_manual_required payment_id) db') [
              | none ↦ (before, err refused)
              | some (db'', marked) ↦
                  refund_marked marked conflict (get_by_payment_id payment_id db'') before db''
            ]
      ]

  -- what follows the first transaction, where no claim was won
  unfoldable pub conclude : Time → ℕ → Db × Result ProcessError Next → Db × Result ProcessError Next
  unfolding run_statement mark_fulfillment_alerted
  conclude now payment_id (db, err e) = (db, err e)
  conclude now payment_id (db, ok finished) = (db, ok finished)
  conclude now payment_id (db, ok (fulfil conflict)) = (db, ok (fulfil conflict))
  conclude now payment_id (db, ok (notify_refund conflict)) =
      (db, if conflict then err not_applied else ok finished)
  conclude now payment_id (db, ok (escalate conflict)) =
      elim (run_statement admits (mark_fulfillment_alerted now payment_id none) db) [
        | none ↦ (db, err refused)
        | some (db', hit) ↦ (db', if conflict then err not_applied else ok finished)
      ]

  -- the event of a payment that is not there yet
  unfoldable pub receive_early : Time → PaymentEvent → Db → Db × Result ProcessError Next
  unfolding store_webhook_event
  receive_early now event db =
      if status_eq event.new_status pending || status_eq event.new_status failed
      then (db, ok finished)
      else elim (store_webhook_event now db.next_event_id event.payment_id event.gateway_type
          event.new_status event.selected_payment_method none db.inbox) [
            | none ↦ (db, err refused)
            | some inbox ↦
                (record db { inbox = inbox; next_event_id = suc db.next_event_id }, err not_ready)
          ]

  -- the event, by its status
  unfoldable pub receive_status :
      Status
      → Time
      → Text
      → Bool
      → PaymentEvent
      → Transaction
      → Db
      → Db
      → Db × Result ProcessError Next
  unfolding receive_canceled receive_completed receive_refunded
  receive_status canceled now token_hash conflict event t before db =
      receive_canceled conflict event.payment_id before db
  receive_status completed now token_hash conflict event t before db =
      receive_completed now token_hash conflict t before db
  receive_status refunded now token_hash conflict event t before db =
      receive_refunded conflict event.payment_id before db
  receive_status pending now token_hash conflict event t before db = (before, err not_applied)
  receive_status failed now token_hash conflict event t before db = (before, err not_applied)

  -- the event of a payment with its transaction
  unfoldable pub receive_known :
      Time → Text → PaymentEvent → Transaction → Db → Db × Result ProcessError Next
  unfolding apply_method get_owner receive_status
  receive_known now token_hash event t db =
      if not (t.gateway_type == event.gateway_type)
      then (db, err not_applied)
      else elim (apply_method event.selected_payment_method event db) [
        | err e ↦ (db, err e)
        | ok (db', conflict) ↦
            if is_null (get_owner t.user_id db')
            then (db, err not_applied)
            else receive_status event.new_status now token_hash conflict event t db db'
      ]

  unfoldable pub receive : Time → Text → PaymentEvent → Db → Db × Result ProcessError Next
  unfolding get_by_payment_id receive_early receive_known conclude
  receive now token_hash event db = elim (get_by_payment_id event.payment_id db) [
    | none ↦ receive_early now event db
    | some t ↦ conclude now event.payment_id (receive_known now token_hash event t db)
  ]
