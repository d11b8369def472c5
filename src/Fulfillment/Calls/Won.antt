-- ===== src/Fulfillment/Calls/Won.antt =====
-- Which events begin a fulfilment: the one event COMPLETED whose claim met a row (`ProcessPayment`,
-- src/application/use_cases/gateways/commands/payment.py).
mod Lost
use remnashop.Prelude.{
  ◌≡◌, if◌then◌else◌, refl, ◌||◌, ◌==◌, Time, Text, Bool, true, false, not, is_null, Option, none,
  some, Option-cases, Bool-cases, inl, inr, arith, ℕ,
}
use mathlib.Core.Path.{subst}
use remnashop.Prelude.Result.{Result, ok, err, Result-cases}
use remnashop.Fulfillment.Row.{
  Transaction, Status, FulfillmentStatus, pending, completed, canceled, refunded, failed,
  not_started, fulfilling, fulfilled, fulfillment_manual, status_eq,
}
use remnashop.Fulfillment.Statements.Events.{claim_fulfillment}
use remnashop.Fulfillment.Statements.Alerts.{mark_fulfillment_alerted}
use remnashop.Fulfillment.Db.{
  Db, run_statement, get_by_payment_id, get_owner, lock_active_payment_owner,
}
use remnashop.Fulfillment.Inbox.{store_webhook_event}
use remnashop.Fulfillment.Process.{
  PaymentEvent, ProcessError, refused, PyText, Next, finished, fulfil, escalate, notify_refund,
  fulfillment_lease, apply_method, receive_canceled, lost_claim, lost_to, receive_status,
  receive_completed, receive_refunded, refund_marked, conclude, receive_early, receive_known,
  receive, return_unless, is_canceled_already,
}
use remnashop.Fulfillment.Calls.{
  statement, StatementCall, refund, provider_cancel, mark_refund, expire, claim,
}
use remnashop.Fulfillment.Calls.Reach.{Reach}
use remnashop.Prelude.Tables.Laws.{find-selected}
use remnashop.Prelude.{==→eq}
use remnashop.Fulfillment.Calls.{is_won}
use remnashop.Fulfillment.Calls.Reach.Received.{Reach-apply_method}
use remnashop.Fulfillment.Calls.Won.Lost.{
  IsLost-receive_canceled, IsLost-lost_claim, IsLost-receive_refunded, IsLost-receive_early,
}

pub found_payment :
    (p : ℕ) (t : Transaction) (db : Db) → get_by_payment_id p db ≡ some t → t.payment_id ≡ p
unfolding get_by_payment_id
found_payment p t db e =
    ==→eq t.payment_id p (find-selected (λ r. r.payment_id == p) db.transactions t e)

module _ (py : PyText) (admits : Transaction → Bool) where
  won-receive_completed :
      (now : Time) (k : Text) (conflict : Bool) (t : Transaction) (before db : Db)
      → let done = receive_completed py admits now k conflict t before db in
        is_won done.1 ≡ true
        → run_statement admits (statement now (claim t.payment_id k) db.transactions) db
          ≡ some (done.0, true)
  unfolding receive_completed statement
  won-receive_completed now k conflict t before db w =
      let s = claim_fulfillment now t.payment_id k fulfillment_lease in
      elim (Bool-cases (lock_active_payment_owner t.payment_id db)) [
        | inr inactive ↦ absurd (ground arith)
        | inl active ↦ elim (Option-cases (run_statement admits s db)) [
          | inl e ↦ absurd (ground arith)
          | inr ((db', true), e) ↦ elim (Bool-cases (is_null (get_owner t.user_id db'))) [
            | inl gone ↦ absurd (ground arith)
            | inr there ↦ ground arith
          ]
          | inr ((db', false), e) ↦
              (let lost =
                  IsLost-lost_claim py admits now conflict (get_by_payment_id t.payment_id db')
                    before db' in
                absurd (ground arith))
        ]
      ]

  won-receive_status :
      (status : Status) (now : Time) (k : Text) (conflict : Bool) (event : PaymentEvent)
      (t : Transaction) (before db : Db)
      → let done = receive_status py admits status now k conflict event t before db in
        is_won done.1 ≡ true
        → run_statement admits (statement now (claim t.payment_id k) db.transactions) db
          ≡ some (done.0, true)
  unfolding receive_status
  won-receive_status completed now k conflict event t before db w =
      won-receive_completed now k conflict t before db w
  won-receive_status canceled now k conflict event t before db w =
      let lost = IsLost-receive_canceled py admits now conflict event.payment_id before db in
      absurd (cc (w, lost))
  won-receive_status refunded now k conflict event t before db w =
      let lost = IsLost-receive_refunded py admits now conflict event.payment_id before db in
      absurd (cc (w, lost))
  won-receive_status pending now k conflict event t before db w = absurd (cc w)
  won-receive_status failed now k conflict event t before db w = absurd (cc w)

  won-receive_known :
      (now : Time) (k : Text) (event : PaymentEvent) (t : Transaction) (db : Db)
      → let done = receive_known py admits now k event t db in
        is_won done.1 ≡ true
        → (mid : Db) × Reach admits db mid
          × (run_statement admits (statement now (claim t.payment_id k) mid.transactions) mid
              ≡ some (done.0, true))
  unfolding receive_known
  won-receive_known now k event t db w =
      elim (Bool-cases (not (t.gateway_type == event.gateway_type))) [
        | inl mismatch ↦ absurd (ground arith)
        | inr same ↦
            elim (Result-cases (apply_method py admits event.selected_payment_method event db)) [
              | inr (x, e) ↦ absurd (ground arith)
              | inl ((mid, conflict), e) ↦ elim (Bool-cases (is_null (get_owner t.user_id mid))) [
                | inl gone ↦ absurd (ground arith)
                | inr there ↦
                    (let done =
                        receive_status py admits event.new_status now k conflict event t db mid in
                      let known : receive_known py admits now k event t db ≡ done =
                        rw (receive_known, same, e, there) refl in
                      (
                        mid,
                        Reach-apply_method py admits now event.selected_payment_method event db mid
                            conflict e,
                        rw known (
                            won-receive_status event.new_status now k conflict event t db mid
                              (subst (λ d. is_won d.1 ≡ true) known w)),
                      ))
              ]
            ]
      ]

  -- What follows the first transaction begins nothing, and keeps what was begun.
  won-conclude :
      (now : Time) (p : ℕ) (done : Db × Result ProcessError Next)
      → is_won (conclude py admits now p done).1 ≡ true
      → (conclude py admits now p done ≡ done) × (is_won done.1 ≡ true)
  unfolding conclude
  won-conclude now p (db, err e) w = absurd (cc w)
  won-conclude now p (db, ok finished) w = absurd (cc w)
  won-conclude now p (db, ok (fulfil conflict)) w = (refl, refl)
  won-conclude now p (db, ok (notify_refund conflict)) w = absurd (ground arith)
  won-conclude now p (db, ok (escalate conflict)) w =
      elim (Option-cases (run_statement admits (mark_fulfillment_alerted now p none) db)) [
        | inl e ↦ absurd (ground arith)
        | inr ((db', hit), e) ↦ absurd (ground arith)
      ]

  -- An event that begins a fulfilment has its transaction, and one statement made the claim.
  pub won-receive :
      (now : Time) (k : Text) (event : PaymentEvent) (db : Db)
      → let done = receive py admits now k event db in
        is_won done.1 ≡ true
        → (mid : Db) × Reach admits db mid
          × (run_statement admits (statement now (claim event.payment_id k) mid.transactions) mid
              ≡ some (done.0, true))
  unfolding receive
  won-receive now k event db w = elim (Option-cases (get_by_payment_id event.payment_id db)) [
    | inl e ↦
        (let lost = IsLost-receive_early py admits now event db in
          let early : receive py admits now k event db ≡ receive_early py admits now event db =
            rw (receive, e) refl in
          absurd (cc (w, early, lost)))
    | inr (t, e) ↦
        (let known = receive_known py admits now k event t db in
          let all : receive py admits now k event db
              ≡ conclude py admits now event.payment_id known =
            rw (receive, e) refl in
          let (kept, won) =
            won-conclude now event.payment_id known (subst (λ d. is_won d.1 ≡ true) all w) in
          let same : t.payment_id ≡ event.payment_id = found_payment event.payment_id t db e in
          rw (all, kept)
            (subst
              (λ p.
                (mid : Db) × Reach admits db mid
                × (run_statement admits (statement now (claim p k) mid.transactions) mid
                    ≡ some (known.0, true)))
              same (won-receive_known now k event t db won)))
  ]
