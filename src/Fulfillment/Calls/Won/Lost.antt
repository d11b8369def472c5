-- ===== src/Fulfillment/Calls/Won/Lost.antt =====
-- The branches of `ProcessPayment` that begin nothing
-- (src/application/use_cases/gateways/commands/payment.py).
use remnashop.Prelude.{
  ◌≡◌, if◌then◌else◌, refl, ◌||◌, Time, Bool, true, false, Option, none, some, Option-cases, inl,
  inr, arith, ℕ,
}
use remnashop.Prelude.Result.{Result, err}
use remnashop.Fulfillment.Row.{
  Transaction, FulfillmentStatus, pending, refunded, failed, not_started, fulfilling, fulfilled,
  fulfillment_manual, status_eq,
}
use remnashop.Fulfillment.Db.{Db, run_statement, get_by_payment_id}
use remnashop.Fulfillment.Inbox.{store_webhook_event}
use remnashop.Fulfillment.Process.{
  PaymentEvent, ProcessError, refused, PyText, Next, receive_canceled, lost_claim, lost_to,
  receive_refunded, refund_marked, receive_early, return_unless, is_canceled_already,
}
use remnashop.Fulfillment.Calls.{
  statement, StatementCall, refund, provider_cancel, mark_refund, expire,
}
use remnashop.Fulfillment.Calls.{is_won}

abbrev pub IsLost : Db × Result ProcessError Next → Type 0
IsLost (db, result) = is_won result ≡ false

module _ (py : PyText) (admits : Transaction → Bool) where
  IsLost-if :
      (b : Bool) (x y : Db × Result ProcessError Next)
      → IsLost x
      → IsLost y
      → IsLost (if b then x else y)
  IsLost-if true x y h k = h
  IsLost-if false x y h k = k

  IsLost-run :
      (db : Db) (now : Time) (c : StatementCall) (e : ProcessError) (before : Db)
      (after : Db → Bool → Db × Result ProcessError Next)
      → ((db' : Db) (hit : Bool) → IsLost (after db' hit))
      → IsLost
          (elim (run_statement admits (statement now c db.transactions) db)
            as (λ _. Db × Result ProcessError Next) [
              | none ↦ (before, err e)
              | some (db', hit) ↦ after db' hit
            ])
  IsLost-run db now c x before after f =
      elim (Option-cases (run_statement admits (statement now c db.transactions) db)) [
        | inl e ↦ rw e refl
        | inr ((db', hit), e) ↦ rw e (f db' hit)
      ]

  IsLost-return_unless :
      (conflict : Bool) (before db : Db) → IsLost (return_unless conflict before db)
  unfolding return_unless
  IsLost-return_unless conflict before db = IsLost-if conflict _ _ refl refl

  pub IsLost-receive_canceled :
      (now : Time) (conflict : Bool) (p : ℕ) (before db : Db)
      → IsLost (receive_canceled py admits conflict p before db)
  unfolding receive_canceled statement
  IsLost-receive_canceled now conflict p before db =
      IsLost-run db now (provider_cancel p) refused before _ (λ db' hit.
        IsLost-if hit _ _ (ground arith) (
          IsLost-if (is_canceled_already (get_by_payment_id p db')) _ _
            (IsLost-return_unless conflict before db') refl))

  IsLost-lost_to :
      (state : FulfillmentStatus) (now : Time) (conflict : Bool) (t : Transaction) (before db : Db)
      → IsLost (lost_to py admits state now conflict t before db)
  unfolding lost_to statement
  IsLost-lost_to fulfilling now conflict t before db =
      IsLost-run db now (expire t.payment_id) refused before _
        (λ db' hit. IsLost-if hit _ _ refl (IsLost-return_unless conflict before db'))
  IsLost-lost_to fulfilled now conflict t before db = IsLost-return_unless conflict before db
  IsLost-lost_to fulfillment_manual now conflict t before db = refl
  IsLost-lost_to not_started now conflict t before db =
      IsLost-if (status_eq t.status refunded) _ _ (IsLost-return_unless conflict before db) refl

  pub IsLost-lost_claim :
      (now : Time) (conflict : Bool) (found : Option Transaction) (before db : Db)
      → IsLost (lost_claim py admits now conflict found before db)
  unfolding lost_claim
  IsLost-lost_claim now conflict none before db = refl
  IsLost-lost_claim now conflict (some t) before db =
      IsLost-lost_to t.fulfillment_status now conflict t before db

  pub IsLost-receive_refunded :
      (now : Time) (conflict : Bool) (p : ℕ) (before db : Db)
      → IsLost (receive_refunded py admits conflict p before db)
  unfolding receive_refunded refund_marked statement
  IsLost-receive_refunded now conflict p before db =
      IsLost-run db now (refund p) refused before _ (λ db' hit. IsLost-if hit _ _ refl (
        IsLost-run db' now (mark_refund p) refused before _ (λ db'' marked.
          elim (Option-cases (get_by_payment_id p db'')) [
            | inl e ↦ rw e refl
            | inr (t, e) ↦ rw e (
                IsLost-if marked _ _ (ground arith)
                  (IsLost-if (status_eq t.status refunded) _ _ (ground arith) refl))
          ])))

  pub IsLost-receive_early :
      (now : Time) (event : PaymentEvent) (db : Db) → IsLost (receive_early py admits now event db)
  unfolding receive_early
  IsLost-receive_early now event db =
      IsLost-if (status_eq event.new_status pending || status_eq event.new_status failed) _ _ refl
        (elim (Option-cases (
          store_webhook_event now db.next_event_id event.payment_id event.gateway_type
            event.new_status event.selected_payment_method none db.inbox)) [
              | inl e ↦ rw e refl
              | inr (inbox, e) ↦ rw e refl
            ])
