-- ===== src/Fulfillment/Worker/Replay.antt =====
-- `ReplayPendingPaymentWebhooks` (src/application/use_cases/misc/commands/maintenance.py): the events
-- that may be worked on are claimed and processed one after the other, and the events that need a
-- person are reported.
use remnashop.Prelude.{
  ℕ, Time, Text, Bool, true, Option, none, some, List, [], ◌∷◌, if◌then◌else◌, days,
}
use remnashop.Fulfillment.Row.{Transaction}
use remnashop.Fulfillment.Inbox.{
  InboxError, other_code, WebhookEvent, claim_replayable_webhook_events, release_webhook_event,
}
use remnashop.Fulfillment.Inbox.Sweep.{
  claim_manual_webhook_alerts, mark_webhook_alerted, mark_expired_orphaned_webhook_events,
}
use remnashop.Fulfillment.Db.{Db}
use remnashop.Fulfillment.Process.{PyText}
use remnashop.Fulfillment.Settle.{SideEffect}
use remnashop.Fulfillment.Worker.{event_of, process_payment, close_event}

-- WEBHOOK_REPLAY_BATCH
abbrev webhook_replay_batch : ℕ
webhook_replay_batch = 100

-- WEBHOOK_RETENTION, ALERT_LEASE, ALERT_RETRY and WEBHOOK_PROCESSING_LEASE
abbrev webhook_retention : ℕ
webhook_retention = days 7

abbrev alert_lease : ℕ
alert_lease = 300000000

abbrev alert_retry : ℕ
alert_retry = 300000000

abbrev replay_lease : ℕ
replay_lease = 900000000

-- how the processing of one event goes: its instants, the token of the claim, and the purchase
pub record Run : Type 0 where
  pub begins : Time
  pub ends : Time
  pub fulfillment_token : Text
  pub effect : SideEffect

-- `event.processing_last_error or "WEBHOOK_MANUAL_REQUIRED"`
abbrev error_or_manual : Option InboxError → InboxError
error_or_manual none = other_code 9
error_or_manual (some e) = e

-- the first transaction: the inbox after it, and the claimed events
unfoldable pub claim_batch :
    (ℕ → Bool)
    → Time
    → Text
    → List Transaction
    → List WebhookEvent
    → List WebhookEvent × List WebhookEvent
unfolding mark_expired_orphaned_webhook_events claim_replayable_webhook_events
claim_batch free now token transactions inbox =
    claim_replayable_webhook_events free now token replay_lease webhook_replay_batch transactions
      (mark_expired_orphaned_webhook_events free now webhook_retention webhook_replay_batch
        transactions inbox).0

-- the report of one event; `sent` says whether the notice went out
unfoldable pub report_event :
    Time → Text → (ℕ → Bool) → WebhookEvent → List WebhookEvent → List WebhookEvent
unfolding release_webhook_event mark_webhook_alerted
report_event now token sent e inbox =
    if sent e.id
    then (mark_webhook_alerted now e.id token inbox).0
    else (release_webhook_event now e.id token alert_retry (error_or_manual e.processing_last_error)
        true inbox).0

unfoldable pub report_events :
    Time → Text → (ℕ → Bool) → List WebhookEvent → List WebhookEvent → List WebhookEvent
unfolding report_event
report_events now token sent [] inbox = inbox
report_events now token sent (e ∷ es) inbox =
    report_events now token sent es (report_event now token sent e inbox)

module _ (py : PyText) (admits : Transaction → Bool) (others : Db → Db) where
  unfoldable pub replay_events : Text → (WebhookEvent → Run) → List WebhookEvent → Db → Db
  unfolding process_payment close_event
  replay_events token runs [] db = db
  replay_events token runs (e ∷ es) db =
      let r = runs e in
      let done =
        process_payment py admits others r.begins r.ends r.fulfillment_token (event_of e) r.effect
          db in
      replay_events token runs es (close_event py admits others r.ends token e done).0

  unfoldable pub replay_pending_payment_webhooks :
      (ℕ → Bool) → Time → Time → Text → Text → (WebhookEvent → Run) → (ℕ → Bool) → Db → Db
  unfolding claim_batch replay_events claim_manual_webhook_alerts report_events
  replay_pending_payment_webhooks free now later token alert_token runs sent db =
      let (inbox, events) = claim_batch free now token db.transactions db.inbox in
      let after = replay_events token runs events (record db { inbox = inbox }) in
      let (reported, alerts) =
        claim_manual_webhook_alerts free later alert_token alert_lease webhook_replay_batch
          after.inbox in
      record after { inbox = report_events later alert_token sent alerts reported }
