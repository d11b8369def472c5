-- ===== src/Fulfillment/Worker/Kept.antt =====
-- When a webhook event leaves the inbox (`_handle_payment_transaction`,
-- src/infrastructure/taskiq/tasks/payments.py).
use remnashop.Prelude.{◌≡◌, refl, ℕ, Time, Text, Bool, true, false, ◌&&◌, ◌==◌, some, arith}
use remnashop.Prelude.Result.{Result, ok, err}
use remnashop.Prelude.Tables.{count_where}
use remnashop.Prelude.Tables.Laws.{count-update_unseen, count-delete_spared}
use remnashop.Fulfillment.Row.{Status, Transaction}
use remnashop.Fulfillment.Inbox.{
  WebhookEvent, claim_webhook_event_by_identity, delete_webhook_event, release_webhook_event,
}
use remnashop.Fulfillment.Db.{Db}
use remnashop.Fulfillment.Process.{PyText, ProcessError, deferred}
use remnashop.Fulfillment.Settle.{SideEffect}
use remnashop.Fulfillment.Worker.{
  webhook_processing_lease, event_of, process_payment, close_event, handle_payment_transaction,
}

-- how many events of the inbox have an id
abbrev pub events_with : ℕ → Db → ℕ
events_with id db = count_where (λ e. e.id == id) db.inbox

abbrev pub is_done : Result ProcessError Unit → Bool
is_done (ok _) = true
is_done (err e) = false

module _ (py : PyText) (admits : Transaction → Bool) (others : Db → Db) where
  closed-kept :
      (later : Time) (token : Text) (e : WebhookEvent) (db : Db) (result : Result ProcessError Unit)
      (id : ℕ)
      → (is_done result && e.id == id) ≡ false
      → events_with id (close_event py admits others later token e (db, result)).0
        ≡ events_with id db
  unfolding close_event delete_webhook_event release_webhook_event
  closed-kept later token e db (ok u) id other =
      count-delete_spared (λ x. x.id == id) _ (λ x h. ground arith) db.inbox
  closed-kept later token e db (err deferred) id other =
      count-update_unseen (λ x. x.id == id) _ _ (λ x. refl) db.inbox
  closed-kept later token e db (err x) id other =
      count-update_unseen (λ y. y.id == id) _ _ (λ y. refl) db.inbox

  -- An event leaves the inbox only when it is the one that the worker claimed and its processing
  -- returned: after a processing that raised, and for every other event, the inbox has as many rows
  -- of an id as the processing left there.
  pub kept_until_done :
      (now later : Time) (k token : Text) (payment_id : ℕ) (gateway_type : Text) (status : Status)
      (effect : SideEffect) (db : Db) (e : WebhookEvent) (id : ℕ)
      → (claim_webhook_event_by_identity now payment_id gateway_type status token
          webhook_processing_lease db.inbox).1
        ≡ some e
      → let inbox =
          (claim_webhook_event_by_identity now payment_id gateway_type status token
            webhook_processing_lease db.inbox).0 in
        let (processed, result) =
          process_payment py admits others now later k
            (event_of e)
            effect
            (record db { inbox = inbox }) in
        (is_done result && e.id == id) ≡ false
        → events_with id
            (handle_payment_transaction py admits others now later k token payment_id gateway_type
              status effect db).0
          ≡ events_with id processed
  unfolding handle_payment_transaction
  kept_until_done now later k token p g s effect db e id claimed other =
      let done = process_payment py admits others now later k (event_of e) effect (record db {
        inbox =
            (claim_webhook_event_by_identity now p g s token webhook_processing_lease db.inbox).0;
      }) in
      rw (handle_payment_transaction, claimed) (closed-kept later token e done.0 done.1 id other)
