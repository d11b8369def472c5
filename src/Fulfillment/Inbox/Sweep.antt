-- ===== src/Fulfillment/Inbox/Sweep.antt =====
-- The inbox of payment webhooks: the sweeps and the alerts
-- (src/infrastructure/database/dao/transaction.py).
use remnashop.Prelude.{
  ℕ, ◌+◌, Time, Text, Bool, not, ◌&&◌, ◌||◌, none, some, List, ◌==◌, ltb, is_null, is_not_null,
  eq_col, le_col, take,
}
use remnashop.Prelude.Tables.{update_where, select_where, order_by}
use remnashop.Fulfillment.Row.{Transaction}
use remnashop.Fulfillment.Statements.{nulls_first, same_col}
use remnashop.Fulfillment.Inbox.{
  WebhookEvent, orphan_retention_expired, has_transaction, is_among, is_due,
}

-- the events that `claim_manual_webhook_alerts` selects
abbrev manual_before : WebhookEvent → WebhookEvent → Bool
manual_before d e =
    nulls_first d.manual_required_at e.manual_required_at
    || same_col d.manual_required_at e.manual_required_at && ltb d.id e.id

-- `claim_manual_webhook_alerts`: the inbox, and the claimed events
unfoldable pub claim_manual_webhook_alerts :
    (ℕ → Bool) → Time → Text → ℕ → ℕ → List WebhookEvent → List WebhookEvent × List WebhookEvent
claim_manual_webhook_alerts free now token_hash lease_for limit events =
    let chosen = take limit (
      order_by manual_before (
        select_where
          (λ e.
            free e.id && is_not_null e.manual_required_at && is_null e.alerted_at && is_due now e)
          events)) in
    let after =
      (update_where (is_among chosen)
        (λ e. record e {
          processing_token_hash = some token_hash;
          processing_lease_expires_at = some (now + lease_for);
        })
        events).0 in
    (after, select_where (is_among chosen) after)

-- `mark_webhook_alerted`
unfoldable pub mark_webhook_alerted : Time → ℕ → Text → List WebhookEvent → List WebhookEvent × ℕ
mark_webhook_alerted now event_id token_hash events =
    update_where
      (λ e.
        e.id == event_id
        && is_not_null e.manual_required_at
        && is_null e.alerted_at
        && eq_col e.processing_token_hash token_hash)
      (λ e. record e {
        alerted_at = some now;
        processing_token_hash = none;
        processing_lease_expires_at = none;
        processing_next_attempt_at = none;
      })
      events

-- `mark_expired_orphaned_webhook_events`
unfoldable pub mark_expired_orphaned_webhook_events :
    (ℕ → Bool) → Time → ℕ → ℕ → List Transaction → List WebhookEvent → List WebhookEvent × ℕ
mark_expired_orphaned_webhook_events free now retention limit transactions events =
    let chosen = take limit (
      order_by
        (λ d e. ltb d.created_at e.created_at || d.created_at == e.created_at && ltb d.id e.id)
        (select_where
          (λ e.
            free e.id
            && ltb (e.created_at + retention) now
            && is_null e.manual_required_at
            && (is_null e.processing_token_hash || le_col e.processing_lease_expires_at now)
            && not (has_transaction transactions e))
          events)) in
    update_where (is_among chosen)
      (λ e. record e {
        manual_required_at = some now;
        processing_last_error = some orphan_retention_expired;
        processing_token_hash = none;
        processing_lease_expires_at = none;
        processing_next_attempt_at = none;
      })
      events
