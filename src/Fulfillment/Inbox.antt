-- ===== src/Fulfillment/Inbox.antt =====
-- The inbox of payment webhooks: the methods of `TransactionDaoImpl` on `payment_webhook_events`
-- (src/infrastructure/database/dao/transaction.py,
-- src/infrastructure/database/models/payment_webhook_event.py).
pub mod Sweep
use remnashop.Prelude.{
  ℕ, ◌+◌, Time, Text, Bool, true, false, not, ◌&&◌, ◌||◌, Option, none, some, List, [], ◌∷◌, ◌++◌,
  ◌==◌, ltb, if◌then◌else◌, is_null, is_not_null, eq_col, le_col, take,
}
use remnashop.Prelude.Tables.{update_where, delete_where, select_where, find_where, order_by}
use remnashop.Fulfillment.Row.{
  Status, pending, completed, canceled, refunded, failed, status_eq, Transaction,
}
use remnashop.Fulfillment.Statements.{nulls_first, same_col}
use remnashop.Fulfillment.Statements.Events.{platega}

-- what `processing_last_error` holds: the literals of the statements, and the codes of callers
pub data InboxError : Type 0 where
  metadata_conflict orphan_retention_expired : InboxError
  other_code : Text → InboxError

-- a row of `payment_webhook_events`
pub record WebhookEvent : Type 0 where
  pub id : ℕ
  pub payment_id : ℕ
  pub gateway_type : Text
  pub status : Status
  pub selected_payment_method : Option Text
  pub processing_token_hash : Option Text
  pub processing_lease_expires_at : Option Time
  pub processing_attempt_count : ℕ
  pub processing_next_attempt_at : Option Time
  pub processing_last_error : Option InboxError
  pub manual_required_at : Option Time
  pub alerted_at : Option Time
  pub created_at : Time

-- `uq_payment_webhook_events_identity`
abbrev pub has_identity : ℕ → Text → Status → WebhookEvent → Bool
has_identity payment_id gateway_type status e =
    e.payment_id == payment_id && e.gateway_type == gateway_type && status_eq e.status status

-- the CHECKs on a row that is to be inserted
abbrev pub insertable : Text → Status → Option Text → Bool
insertable gateway_type status method =
    (status_eq status completed || status_eq status canceled || status_eq status refunded)
    && (is_null method || gateway_type == platega)

abbrev or_else : Option ℕ → Option ℕ → Option ℕ
or_else none b = b
or_else (some a) b = some a

-- both are there and differ
abbrev differ : Option ℕ → Option ℕ → Bool
differ none b = false
differ (some a) none = false
differ (some a) (some b) = not (a == b)

-- the DO UPDATE of the upsert, by what was to be inserted
unfoldable pub merged_event : Time → Option Text → Option InboxError → WebhookEvent → WebhookEvent
merged_event now method error e =
    let conflict = differ e.selected_payment_method method in
    let manual = conflict || is_not_null error in
    record e {
      selected_payment_method = or_else e.selected_payment_method method;
      manual_required_at =
          if manual then or_else e.manual_required_at (some now) else e.manual_required_at;
      processing_last_error =
          if conflict
          then some metadata_conflict
          else if is_not_null error
          then error
          else e.processing_last_error;
      processing_next_attempt_at = if manual then none else e.processing_next_attempt_at;
      processing_token_hash = if manual then none else e.processing_token_hash;
      processing_lease_expires_at = if manual then none else e.processing_lease_expires_at;
    }

abbrev fresh_event : Time → ℕ → ℕ → Text → Status → Option Text → Option InboxError → WebhookEvent
fresh_event now id payment_id gateway_type status method error = record {
  id = id;
  payment_id = payment_id;
  gateway_type = gateway_type;
  status = status;
  selected_payment_method = method;
  processing_token_hash = none;
  processing_lease_expires_at = none;
  processing_attempt_count = 0;
  processing_next_attempt_at = none;
  processing_last_error = error;
  manual_required_at = if is_null error then none else some now;
  alerted_at = none;
  created_at = now;
}

-- `store_webhook_event`, with the id that the sequence gives next; none where a CHECK refuses the row
unfoldable pub store_webhook_event :
    Time
    → ℕ
    → ℕ
    → Text
    → Status
    → Option Text
    → Option InboxError
    → List WebhookEvent
    → Option (List WebhookEvent)
unfolding merged_event
store_webhook_event now id payment_id gateway_type status method error events =
    if not (insertable gateway_type status method)
    then none
    else if is_null (find_where (has_identity payment_id gateway_type status) events)
    then some (events ++ fresh_event now id payment_id gateway_type status method error ∷ [])
    else some
        (update_where (has_identity payment_id gateway_type status) (merged_event now method error)
          events).0

-- whether an event may be worked on
abbrev pub is_due : Time → WebhookEvent → Bool
is_due now e =
    (is_null e.processing_next_attempt_at || le_col e.processing_next_attempt_at now)
    && (is_null e.processing_token_hash || le_col e.processing_lease_expires_at now)

abbrev pub claimed_event : Time → Text → ℕ → WebhookEvent → WebhookEvent
claimed_event now token_hash lease_for e = record e {
  processing_token_hash = some token_hash;
  processing_lease_expires_at = some (now + lease_for);
  processing_attempt_count = e.processing_attempt_count + 1;
}

abbrev pub may_claim : Time → ℕ → Text → Status → WebhookEvent → Bool
may_claim now payment_id gateway_type status e =
    has_identity payment_id gateway_type status e && is_null e.manual_required_at && is_due now e

-- `claim_webhook_event_by_identity`: the inbox, and the claimed event
unfoldable pub claim_webhook_event_by_identity :
    Time
    → ℕ
    → Text
    → Status
    → Text
    → ℕ
    → List WebhookEvent
    → List WebhookEvent × Option WebhookEvent
claim_webhook_event_by_identity now payment_id gateway_type status token_hash lease_for events = (
  (update_where (may_claim now payment_id gateway_type status)
      (claimed_event now token_hash lease_for) events).0,
  elim (find_where (may_claim now payment_id gateway_type status) events) [
    | none ↦ none
    | some e ↦ some (claimed_event now token_hash lease_for e)
  ],
)

-- whether the transaction of an event is there
abbrev pub has_transaction : List Transaction → WebhookEvent → Bool
has_transaction transactions e = is_not_null (
    find_where (λ t. t.payment_id == e.payment_id && t.gateway_type == e.gateway_type) transactions)

-- the events that `claim_replayable_webhook_events` selects
unfoldable pub replayable_events :
    (ℕ → Bool) → Time → ℕ → List Transaction → List WebhookEvent → List WebhookEvent
replayable_events free now limit transactions events = take limit (
    order_by
      (λ d e.
        nulls_first d.processing_next_attempt_at e.processing_next_attempt_at
        || same_col d.processing_next_attempt_at e.processing_next_attempt_at
          && (ltb d.created_at e.created_at || d.created_at == e.created_at && ltb d.id e.id))
      (select_where
        (λ e.
          free e.id
          && has_transaction transactions e
          && is_null e.manual_required_at
          && is_due now e)
        events))

abbrev pub is_among : List WebhookEvent → WebhookEvent → Bool
is_among chosen e = is_not_null (find_where (λ d. d.id == e.id) chosen)

-- `claim_replayable_webhook_events`: the inbox, and the claimed events
unfoldable pub claim_replayable_webhook_events :
    (ℕ → Bool)
    → Time
    → Text
    → ℕ
    → ℕ
    → List Transaction
    → List WebhookEvent
    → List WebhookEvent × List WebhookEvent
unfolding replayable_events
claim_replayable_webhook_events free now token_hash lease_for limit transactions events =
    let chosen = replayable_events free now limit transactions events in
    let after =
      (update_where (is_among chosen) (claimed_event now token_hash lease_for) events).0 in
    (after, select_where (is_among chosen) after)

-- `delete_webhook_event`
unfoldable pub delete_webhook_event : ℕ → Text → List WebhookEvent → List WebhookEvent × ℕ
delete_webhook_event event_id token_hash events =
    delete_where
      (λ e.
        e.id == event_id
        && eq_col e.processing_token_hash token_hash
        && is_null e.manual_required_at)
      events

-- `delete_webhook_event_by_identity`
unfoldable pub delete_webhook_event_by_identity :
    ℕ → Text → Status → List WebhookEvent → List WebhookEvent × ℕ
delete_webhook_event_by_identity payment_id gateway_type status events =
    delete_where (has_identity payment_id gateway_type status) events

-- `release_webhook_event`
unfoldable pub release_webhook_event :
    Time → ℕ → Text → ℕ → InboxError → Bool → List WebhookEvent → List WebhookEvent × ℕ
release_webhook_event now event_id token_hash retry_after error manual events =
    update_where (λ e. e.id == event_id && eq_col e.processing_token_hash token_hash)
      (λ e. record e {
        processing_token_hash = none;
        processing_lease_expires_at = none;
        processing_last_error = some error;
        processing_next_attempt_at = some (now + retry_after);
        manual_required_at =
            if manual then or_else e.manual_required_at (some now) else e.manual_required_at;
      })
      events
