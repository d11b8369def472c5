-- ===== src/Fulfillment/Calls/Reach.antt =====
-- What the calls do to `transactions` is a sequence of the statements, of new rows and of changes
-- beside that table: what holds of each of these holds of the calls.
pub mod Received
pub mod Settled
pub mod Histories
use remnashop.Prelude.{
  ◌≡◌, List, [], ◌∷◌, ◌++◌, if◌then◌else◌, refl, ◌||◌, ◌==◌, Time, Text, Bool, true, false, not,
  is_null, Option, none, some, Option-cases, Bool-cases, inl, inr, arith, ℕ,
}
use mathlib.Core.Path.{subst}
use remnashop.Prelude.Result.{Result, ok, err, Result-cases}
use remnashop.Fulfillment.Row.{
  Transaction, Status, FulfillmentStatus, pending, completed, canceled, refunded, failed,
  not_started, fulfilling, fulfilled, fulfillment_manual, status_eq, fulfillment_eq, ErrorCode,
  side_effect_failed,
}
use remnashop.Fulfillment.Statements.Events.{
  set_payment_method_if_absent_or_equal, transition_refunded, cancel_by_provider, claim_fulfillment,
  mark_refund_manual_required, platega,
}
use remnashop.Fulfillment.Statements.Fence.{
  complete_fulfillment, mark_fulfillment_manual_required, release_unapplied_fulfillment,
  expire_fulfillment,
}
use remnashop.Fulfillment.Statements.Alerts.{mark_fulfillment_alerted}
use remnashop.Fulfillment.Db.{
  Db, run_statement, get_by_payment_id, get_owner, lock_active_payment_owner,
}
use remnashop.Fulfillment.Inbox.{store_webhook_event}
use remnashop.Fulfillment.Process.{
  PaymentEvent, ProcessError, refused, not_applied, PyText, Next, finished, fulfil, escalate,
  notify_refund, fulfillment_lease, apply_method, method_applied, normalize_platega_payment_method,
  receive_canceled, lost_claim, lost_to, receive_status, receive_completed, receive_refunded,
  refund_marked, conclude, receive_early, receive_known, receive, return_unless,
  is_canceled_already,
}
use remnashop.Fulfillment.Settle.{
  SideEffect, applied, unreachable, raised, is_deferred, fence, settle_deferred, settle_failed,
  alert, settle_late, settle_applied, settle, late_code, is_proved, is_manual,
}
use remnashop.Fulfillment.Calls.{
  statement, StatementCall, set_method, refund, provider_cancel, mark_refund, expire, claim,
  complete, release, mark_manual, mark_alerted,
}

module _ (admits : Transaction → Bool) where
  pub data Reach (s : Db) : Db → Type 0 where
    here : Reach s s
    ran :
        {t u : Db}
        → Reach s t
        → (now : Time) (c : StatementCall) (hit : Bool)
        → run_statement admits (statement now c t.transactions) t ≡ some (u, hit)
        → Reach s u
    added :
        {t u : Db}
        → Reach s t
        → (row : Transaction) → get_by_payment_id row.payment_id t ≡ none
        → admits row ≡ true
        → u.transactions ≡ t.transactions ++ row ∷ []
        → Reach s u
    aside : {t u : Db} → Reach s t → u.transactions ≡ t.transactions → Reach s u

  pub Reach-if :
      {A : Type 0} {s : Db} (b : Bool) (x y : Db × A)
      → Reach s x.0
      → Reach s y.0
      → Reach s (if b then x else y).0
  Reach-if true x y h k = h
  Reach-if false x y h k = k

  -- A run whose next statement is `c`, and which answers with `gone` where it is refused.
  pub Reach-run :
      {A : Type 0} {s : Db} (db : Db) (now : Time) (c : StatementCall) (gone : Db × A)
      (after : Db → Bool → Db × A)
      → Reach s db
      → Reach s gone.0
      → ((db' : Db) (hit : Bool) → Reach s db' → Reach s (after db' hit).0)
      → Reach s
          (elim (run_statement admits (statement now c db.transactions) db) as (λ _. Db × A) [
            | none ↦ gone
            | some (db', hit) ↦ after db' hit
          ]).0
  Reach-run db now c gone after r g f =
      elim (Option-cases (run_statement admits (statement now c db.transactions) db)) [
        | inl e ↦ rw e g
        | inr ((db', hit), e) ↦ rw e (f db' hit (ran r now c hit e))
      ]
