-- ===== src/Fulfillment/Worker/Alone.antt =====
-- One worker at a time handles a webhook event (`_handle_payment_transaction`,
-- src/infrastructure/taskiq/tasks/payments.py).
use remnashop.Prelude.{
  ◌≡◌, refl, ◌≤◌, ◌<◌, ◌+◌, ℕ, Time, Text, Bool, none, some, List, [], ◌∷◌, Bool-cases,
  Option-cases, inl, inr, arith,
}
use remnashop.Prelude.Result.{ok}
use remnashop.Prelude.Tables.{find_where, update_where, count_where}
use remnashop.Prelude.Tables.Laws.{update-nothing, find-count_zero}
use remnashop.Fulfillment.Row.{Status, Transaction}
use remnashop.Fulfillment.Inbox.{
  WebhookEvent, has_identity, may_claim, claimed_event, claim_webhook_event_by_identity,
}
use remnashop.Fulfillment.Db.{Db}
use remnashop.Fulfillment.Process.{PyText}
use remnashop.Fulfillment.Settle.{SideEffect}
use remnashop.Fulfillment.Worker.{webhook_processing_lease, handle_payment_transaction}

module _ (now : Time) (payment_id : ℕ) (gateway_type : Text) (status : Status) where
  abbrev named : WebhookEvent → Bool
  named = has_identity payment_id gateway_type status

  abbrev free : Time → WebhookEvent → Bool
  free at = may_claim at payment_id gateway_type status

  none-free :
      (at : Time) (test : WebhookEvent → Bool) (k : Text) (d : ℕ) (events : List WebhookEvent)
      → count_where named events ≡ 0
      → count_where (free at) (update_where test (claimed_event now k d) events).0 ≡ 0
  unfolding count_where update_where
  none-free at test k d [] e = refl
  none-free at test k d (x ∷ xs) e = let rest = none-free at test k d xs in ground arith

  none-found :
      (events : List WebhookEvent)
      → count_where named events ≡ 0
      → find_where (free now) events ≡ none
  unfolding count_where find_where
  none-found [] e = refl
  none-found (x ∷ xs) e = let rest = none-found xs in ground arith

  held-claim :
      (at : Time) (k : Text) (d : ℕ) (events : List WebhookEvent) (e : WebhookEvent)
      → count_where named events ≤ 1
      → find_where (free now) events ≡ some e
      → at < now + d
      → count_where (free at) (update_where (free now) (claimed_event now k d) events).0 ≡ 0
  unfolding count_where update_where find_where
  held-claim at k d [] e unique found soon = absurd (cc found)
  held-claim at k d (x ∷ xs) e unique found soon =
      let rest = held-claim at k d xs e in
      let tail = none-free at (free now) k d xs in
      let gone = none-found xs in
      elim (Bool-cases (named x)) [
        | inl mine ↦ elim (Bool-cases (free now x)) [
          | inl claimed ↦ ground arith
          | inr busy ↦ ground arith
        ]
        | inr other ↦ ground arith
      ]

  claim-found :
      (k : Text) (d : ℕ) (events : List WebhookEvent) (e : WebhookEvent)
      → (claim_webhook_event_by_identity now payment_id gateway_type status k d events).1 ≡ some e
      → (x : WebhookEvent) × (find_where (free now) events ≡ some x)
  unfolding claim_webhook_event_by_identity
  claim-found k d events e claimed = elim (Option-cases (find_where (free now) events)) [
    | inl gone ↦ absurd (ground arith)
    | inr (x, found) ↦ (x, found)
  ]

-- While a worker holds an event that it claimed, and its lease has not ended, another worker that is
-- given the same event returns at once: it claims nothing, processes nothing and leaves the tables
-- as they are. The event's identity has one row at most.
pub second_worker_returns :
    (py : PyText) (admits : Transaction → Bool) (others : Db → Db) (now at later : Time)
    (k token token' : Text) (payment_id : ℕ) (gateway_type : Text) (status : Status)
    (effect : SideEffect) (events : List WebhookEvent) (db : Db) (e : WebhookEvent)
    → count_where (has_identity payment_id gateway_type status) events ≤ 1
    → (claim_webhook_event_by_identity now payment_id gateway_type status token
        webhook_processing_lease events).1
      ≡ some e
    → db.inbox
      ≡ (claim_webhook_event_by_identity now payment_id gateway_type status token
          webhook_processing_lease events).0
    → at < now + webhook_processing_lease
    → handle_payment_transaction py admits others at later k token' payment_id gateway_type status
        effect db
      ≡ (db, ok tt)
unfolding handle_payment_transaction claim_webhook_event_by_identity
second_worker_returns py admits others now at later k token token' p g s effect events db e unique
      claimed inbox soon =
    let (x, found) = claim-found now p g s token webhook_processing_lease events e claimed in
    let none_left =
      held-claim now p g s at token webhook_processing_lease events x unique found soon in
    let zero : count_where (may_claim at p g s) db.inbox ≡ 0 = rw inbox none_left in
    rw
      (
        handle_payment_transaction,
        claim_webhook_event_by_identity,
        find-count_zero (may_claim at p g s) db.inbox zero,
        update-nothing (may_claim at p g s) (claimed_event at token' webhook_processing_lease)
            db.inbox zero,
      )
      refl
