-- ===== src/Fulfillment/Tests/Inbox.antt =====
-- Examples of the worker on the inbox (src/infrastructure/taskiq/tasks/payments.py).
use remnashop.Fulfillment.Worker.{event_of, process_payment}
use remnashop.Fulfillment.Worker.Kept.{events_with, is_done, kept_until_done}
use remnashop.Prelude.{◌&&◌, ◌==◌}
use remnashop.Fulfillment.Settle.{raised}
use remnashop.Prelude.{◌≡◌, ◌≤◌, [], ◌∷◌, ◌&&◌, refl, false, none, some, arith, ◌==◌}
use remnashop.Prelude.Result.{ok}
use remnashop.Prelude.Tables.{update_where, count_where, find_where}
use remnashop.Fulfillment.Row.{completed, admissible}
use remnashop.Fulfillment.Db.{Db}
use remnashop.Prelude.{ap, sym}
use remnashop.Fulfillment.Inbox.{WebhookEvent, has_identity, claim_webhook_event_by_identity}
use remnashop.Fulfillment.Worker.{webhook_processing_lease, handle_payment_transaction}
use remnashop.Fulfillment.Worker.Alone.{second_worker_returns}
use remnashop.Fulfillment.Process.{receive}
use remnashop.Fulfillment.Settle.{applied}
use remnashop.Fulfillment.Tests.{plain, unpaid, shop}

-- the event of the success, stored at 4
abbrev waiting : WebhookEvent
waiting = record {
  id = 0;
  payment_id = 9;
  gateway_type = 2;
  status = completed;
  selected_payment_method = none;
  processing_token_hash = none;
  processing_lease_expires_at = none;
  processing_attempt_count = 0;
  processing_next_attempt_at = none;
  processing_last_error = none;
  manual_required_at = none;
  alerted_at = none;
  created_at = 4;
}

abbrev taken : WebhookEvent
taken = record waiting {
  processing_token_hash = some 31;
  processing_lease_expires_at = some 300000010;
  processing_attempt_count = 1;
}

one_waiting : count_where (has_identity 9 2 completed) (waiting ∷ []) ≤ 1
unfolding count_where
one_waiting = omega arith

waiting_claimed :
    claim_webhook_event_by_identity 10 9 2 completed 31 webhook_processing_lease (waiting ∷ [])
    ≡ (taken ∷ [], some taken)
unfolding claim_webhook_event_by_identity find_where update_where
waiting_claimed = refl

second_worker_returns_example :
    handle_payment_transaction plain admissible
      (λ db. db)
      12
      15
      77
      32
      9
      2
      completed
      applied
      (record (shop unpaid) { inbox = taken ∷ [] })
    ≡ (record (shop unpaid) { inbox = taken ∷ [] }, ok tt)
second_worker_returns_example =
    second_worker_returns plain admissible (λ db. db) 10 12 15 77 31 32 9 2 completed applied
      (waiting ∷ []) (record (shop unpaid) { inbox = taken ∷ [] }) taken one_waiting
      (ap (λ c. c.1) waiting_claimed) (ap (λ c. c.0) (sym waiting_claimed)) (omega arith)

-- the inbox with the event, and the database where a worker has claimed it
abbrev with_event : Db
with_event = record (shop unpaid) { inbox = waiting ∷ [] }

abbrev after_claim : Db
after_claim = record (shop unpaid) {
  inbox =
      (claim_webhook_event_by_identity 10 9 2 completed 31 webhook_processing_lease
        (waiting ∷ [])).0;
}

purchase_raised :
    (is_done
        (process_payment plain admissible (λ db. db) 10 15 77 (event_of taken) raised after_claim).1
      && (taken.id == 0))
    ≡ false
unfolding process_payment admissible receive find_where count_where update_where
    claim_webhook_event_by_identity
purchase_raised = refl

kept_until_done_example :
    events_with 0
      (handle_payment_transaction plain admissible
        (λ db. db)
        10
        15
        77
        31
        9
        2
        completed
        raised
        with_event).0
    ≡ events_with 0
        (process_payment plain admissible (λ db. db) 10 15 77 (event_of taken) raised after_claim).0
kept_until_done_example =
    kept_until_done plain admissible (λ db. db) 10 15 77 31 9 2 completed raised with_event taken 0
      (ap (λ c. c.1) waiting_claimed) purchase_raised
