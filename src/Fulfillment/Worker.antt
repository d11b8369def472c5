-- ===== src/Fulfillment/Worker.antt =====
-- The worker on the inbox of webhooks (`_handle_payment_transaction`,
-- src/infrastructure/taskiq/tasks/payments.py) around a whole `ProcessPayment`
-- (src/application/use_cases/gateways/commands/payment.py). `others` is what other processes do to the
-- tables while the purchase runs.
pub mod Alone
pub mod Replay
pub mod Kept
use remnashop.Prelude.{
  ℕ, ◌+◌, ◌-◌, ◌*◌, ◌^◌, min, Time, Text, Bool, true, false, ◌||◌, Option, none, some, leb, ltb,
  if◌then◌else◌,
}
use remnashop.Prelude.Result.{Result, ok, err}
use remnashop.Fulfillment.Row.{Status, Transaction}
use remnashop.Fulfillment.Inbox.{
  InboxError, other_code, WebhookEvent, claim_webhook_event_by_identity, delete_webhook_event,
  release_webhook_event,
}
use remnashop.Fulfillment.Db.{Db}
use remnashop.Fulfillment.Process.{
  PaymentEvent, ProcessError, not_ready, not_applied, owner_unavailable, refused, unexpected,
  deferred, purchase_failed, not_found, not_retryable, PyText, Next, fulfil, receive,
}
use remnashop.Fulfillment.Settle.{SideEffect, settle}

-- WEBHOOK_PROCESSING_LEASE and WEBHOOK_RETRY, in microseconds
abbrev pub webhook_processing_lease : ℕ
webhook_processing_lease = 300000000

abbrev webhook_retry : ℕ
webhook_retry = 60000000

-- WEBHOOK_MAX_ATTEMPTS and PANEL_UNREACHABLE_MAX_ATTEMPTS
abbrev webhook_max_attempts : ℕ
webhook_max_attempts = 5

abbrev panel_unreachable_max_attempts : ℕ
panel_unreachable_max_attempts = 12

unfoldable pub panel_unreachable_retry_after : ℕ → ℕ
panel_unreachable_retry_after attempt_count = min (2 ^ (attempt_count - 1)) 10 * 60000000

-- `_webhook_error_code`: a code for each kind of exception
abbrev webhook_error_code : ProcessError → InboxError
webhook_error_code not_ready = other_code 0
webhook_error_code not_applied = other_code 1
webhook_error_code owner_unavailable = other_code 2
webhook_error_code refused = other_code 3
webhook_error_code unexpected = other_code 4
webhook_error_code deferred = other_code 5
webhook_error_code purchase_failed = other_code 6
webhook_error_code not_found = other_code 7
webhook_error_code not_retryable = other_code 8

abbrev is_not_applied : ProcessError → Bool
is_not_applied not_applied = true
is_not_applied _ = false

abbrev pub event_of : WebhookEvent → PaymentEvent
event_of e = record {
  payment_id = e.payment_id;
  new_status = e.status;
  gateway_type = e.gateway_type;
  selected_payment_method = e.selected_payment_method;
  defer_unreachable_fulfillment = ltb e.processing_attempt_count panel_unreachable_max_attempts;
}

module _ (py : PyText) (admits : Transaction → Bool) (others : Db → Db) where
  -- what follows the first transaction of `ProcessPayment`
  process_rest :
      Time
      → Text
      → PaymentEvent
      → SideEffect
      → Db × Result ProcessError Next
      → Db × Result ProcessError Unit
  unfolding settle
  process_rest later k event effect (db, err e) = (db, err e)
  process_rest later k event effect (db, ok (fulfil conflict)) =
      settle admits later k event.payment_id conflict event.defer_unreachable_fulfillment effect
        (others db)
  process_rest later k event effect (db, ok _) = (db, ok tt)

  -- `ProcessPayment`: the event comes at `now`, and the purchase ends at `later`
  unfoldable pub process_payment :
      Time → Time → Text → PaymentEvent → SideEffect → Db → Db × Result ProcessError Unit
  unfolding receive process_rest
  process_payment now later k event effect db =
      process_rest later k event effect (receive py admits now k event db)

  -- what becomes of the event once it was processed
  unfoldable pub close_event :
      Time → Text → WebhookEvent → Db × Result ProcessError Unit → Db × Result ProcessError Unit
  unfolding delete_webhook_event release_webhook_event panel_unreachable_retry_after
  close_event later token e (db, ok _) =
      (record db { inbox = (delete_webhook_event e.id token db.inbox).0 }, ok tt)
  close_event later token e (db, err deferred) = (
    record db {
      inbox =
          (release_webhook_event later e.id token
            (panel_unreachable_retry_after e.processing_attempt_count) (webhook_error_code deferred)
            false db.inbox).0;
    },
    ok tt,
  )
  close_event later token e (db, err x) =
      let manual = is_not_applied x || leb webhook_max_attempts e.processing_attempt_count in
      (
        record db {
          inbox =
              (release_webhook_event later e.id token (if manual then 0 else webhook_retry)
                (webhook_error_code x) manual db.inbox).0;
        },
        err x,
      )

  -- `_handle_payment_transaction`, with the tokens of the fulfilment and of the event
  unfoldable pub handle_payment_transaction :
      Time
      → Time
      → Text
      → Text
      → ℕ
      → Text
      → Status
      → SideEffect
      → Db
      → Db × Result ProcessError Unit
  unfolding claim_webhook_event_by_identity process_payment close_event
  handle_payment_transaction now later k token payment_id gateway_type status effect db =
      let (inbox, claimed) =
        claim_webhook_event_by_identity now payment_id gateway_type status token
          webhook_processing_lease db.inbox in
      let after = record db { inbox = inbox } in
      elim claimed [
        | none ↦ (after, ok tt)
        | some e ↦ close_event later token e (process_payment now later k (event_of e) effect after)
      ]
