-- ===== src/Fulfillment/Calls/Reach/Received.antt =====
-- What an event does (`ProcessPayment` up to the claim,
-- src/application/use_cases/gateways/commands/payment.py) is a sequence of the statements.
use remnashop.Prelude.{
  ◌≡◌, refl, ◌||◌, ◌==◌, Time, Text, Bool, not, is_null, Option, none, some, Option-cases,
  Bool-cases, inl, inr, arith, ℕ,
}
use mathlib.Core.Path.{subst}
use remnashop.Prelude.Result.{Result, ok, err, Result-cases}
use remnashop.Fulfillment.Row.{
  Transaction, Status, FulfillmentStatus, pending, completed, canceled, refunded, failed,
  not_started, fulfilling, fulfilled, fulfillment_manual, status_eq,
}
use remnashop.Fulfillment.Statements.Events.{set_payment_method_if_absent_or_equal, platega}
use remnashop.Fulfillment.Db.{
  Db, run_statement, get_by_payment_id, get_owner, lock_active_payment_owner,
}
use remnashop.Fulfillment.Inbox.{store_webhook_event}
use remnashop.Fulfillment.Process.{
  PaymentEvent, ProcessError, refused, PyText, Next, finished, fulfil, escalate, notify_refund,
  apply_method, method_applied, normalize_platega_payment_method, receive_canceled, lost_claim,
  lost_to, receive_status, receive_completed, receive_refunded, refund_marked, conclude,
  receive_early, receive_known, receive, return_unless, is_canceled_already,
}
use remnashop.Fulfillment.Calls.{
  statement, set_method, refund, provider_cancel, mark_refund, expire, claim, mark_alerted,
}
use remnashop.Fulfillment.Calls.Reach.{Reach, here, ran, aside, Reach-if, Reach-run}

module _ (py : PyText) (admits : Transaction → Bool) where
  Reach-return_unless :
      {s : Db} (conflict : Bool) (before db : Db)
      → Reach admits s before
      → Reach admits s db
      → Reach admits s (return_unless conflict before db).0
  unfolding return_unless
  Reach-return_unless conflict before db b r = Reach-if admits conflict _ _ b r

  Reach-receive_canceled :
      {s : Db} (now : Time) (conflict : Bool) (p : ℕ) (before db : Db)
      → Reach admits s before
      → Reach admits s db
      → Reach admits s (receive_canceled py admits conflict p before db).0
  unfolding receive_canceled statement
  Reach-receive_canceled now conflict p before db b r =
      Reach-run admits db now (provider_cancel p) (before, err refused) _ r b
        (λ db' hit r'. Reach-if admits hit _ _ r' (
          Reach-if admits (is_canceled_already (get_by_payment_id p db')) _ _
            (Reach-return_unless conflict before db' b r') b))

  Reach-lost_to :
      {s : Db} (state : FulfillmentStatus) (now : Time) (conflict : Bool) (t : Transaction)
      (before db : Db)
      → Reach admits s before
      → Reach admits s db
      → Reach admits s (lost_to py admits state now conflict t before db).0
  unfolding lost_to statement
  Reach-lost_to fulfilling now conflict t before db b r =
      Reach-run admits db now (expire t.payment_id) (before, err refused) _ r b
        (λ db' hit r'. Reach-if admits hit _ _ r' (Reach-return_unless conflict before db' b r'))
  Reach-lost_to fulfilled now conflict t before db b r = Reach-return_unless conflict before db b r
  Reach-lost_to fulfillment_manual now conflict t before db b r = b
  Reach-lost_to not_started now conflict t before db b r =
      Reach-if admits (status_eq t.status refunded) _ _ (Reach-return_unless conflict before db b r)
        b

  Reach-lost_claim :
      {s : Db} (now : Time) (conflict : Bool) (found : Option Transaction) (before db : Db)
      → Reach admits s before
      → Reach admits s db
      → Reach admits s (lost_claim py admits now conflict found before db).0
  unfolding lost_claim
  Reach-lost_claim now conflict none before db b r = b
  Reach-lost_claim now conflict (some t) before db b r =
      Reach-lost_to t.fulfillment_status now conflict t before db b r

  Reach-receive_completed :
      {s : Db} (now : Time) (token_hash : Text) (conflict : Bool) (t : Transaction) (before db : Db)
      → Reach admits s before
      → Reach admits s db
      → Reach admits s (receive_completed py admits now token_hash conflict t before db).0
  unfolding receive_completed statement
  Reach-receive_completed now token_hash conflict t before db b r =
      Reach-if admits (not (lock_active_payment_owner t.payment_id db)) _ _ b (
        Reach-run admits db now (claim t.payment_id token_hash) (before, err refused) _ r b
          (λ db' claimed r'.
            Reach-if admits claimed _ _
              (Reach-if admits (is_null (get_owner t.user_id db')) _ _ b r')
              (Reach-lost_claim now conflict (get_by_payment_id t.payment_id db') before db' b r')))

  Reach-refund_marked :
      {s : Db} (marked conflict : Bool) (found : Option Transaction) (before db : Db)
      → Reach admits s before
      → Reach admits s db
      → Reach admits s (refund_marked py admits marked conflict found before db).0
  unfolding refund_marked
  Reach-refund_marked marked conflict none before db b r = b
  Reach-refund_marked marked conflict (some t) before db b r =
      Reach-if admits marked _ _ r (Reach-if admits (status_eq t.status refunded) _ _ r b)

  Reach-receive_refunded :
      {s : Db} (now : Time) (conflict : Bool) (p : ℕ) (before db : Db)
      → Reach admits s before
      → Reach admits s db
      → Reach admits s (receive_refunded py admits conflict p before db).0
  unfolding receive_refunded statement
  Reach-receive_refunded now conflict p before db b r =
      Reach-run admits db now (refund p) (before, err refused) _ r b
        (λ db' hit r'. Reach-if admits hit _ _ r' (
          Reach-run admits db' now (mark_refund p) (before, err refused) _ r' b
            (λ db'' marked r''.
              Reach-refund_marked marked conflict (get_by_payment_id p db'') before db'' b r'')))

  Reach-receive_status :
      {s : Db} (status : Status) (now : Time) (token_hash : Text) (conflict : Bool)
      (event : PaymentEvent) (t : Transaction) (before db : Db)
      → Reach admits s before
      → Reach admits s db
      → Reach admits s (receive_status py admits status now token_hash conflict event t before db).0
  unfolding receive_status
  Reach-receive_status canceled now k conflict event t before db b r =
      Reach-receive_canceled now conflict event.payment_id before db b r
  Reach-receive_status completed now k conflict event t before db b r =
      Reach-receive_completed now k conflict t before db b r
  Reach-receive_status refunded now k conflict event t before db b r =
      Reach-receive_refunded now conflict event.payment_id before db b r
  Reach-receive_status pending now k conflict event t before db b r = b
  Reach-receive_status failed now k conflict event t before db b r = b

  Reach-method_applied :
      (now : Time) (method : Option (Option Text)) (p : ℕ) (db mid : Db) (conflict : Bool)
      → method_applied py admits method p db ≡ ok (mid, conflict)
      → Reach admits db mid
  unfolding method_applied statement
  Reach-method_applied now none p db mid conflict e = absurd (cc e)
  Reach-method_applied now (some none) p db mid conflict e = absurd (cc e)
  Reach-method_applied now (some (some m)) p db mid conflict e =
      elim (Option-cases (run_statement admits (set_payment_method_if_absent_or_equal p m) db)) [
        | inl refused_it ↦ absurd (ground arith)
        | inr ((db', hit), done) ↦
            (let same : db' ≡ mid = ground arith in
              subst (Reach admits db) same (ran here now (set_method p m) hit done))
      ]

  pub Reach-apply_method :
      (now : Time) (method : Option Text) (event : PaymentEvent) (db mid : Db) (conflict : Bool)
      → apply_method py admits method event db ≡ ok (mid, conflict)
      → Reach admits db mid
  unfolding apply_method
  Reach-apply_method now none event db mid conflict e =
      let same : db ≡ mid = ground arith in subst (Reach admits db) same here
  Reach-apply_method now (some m) event db mid conflict e =
      elim (Bool-cases (event.gateway_type == platega)) [
        | inl platega_event ↦
            Reach-method_applied now (normalize_platega_payment_method py m) event.payment_id db mid
              conflict (ground arith)
        | inr other ↦ absurd (ground arith)
      ]

  Reach-receive_known :
      (now : Time) (token_hash : Text) (event : PaymentEvent) (t : Transaction) (db : Db)
      → Reach admits db (receive_known py admits now token_hash event t db).0
  unfolding receive_known
  Reach-receive_known now token_hash event t db =
      Reach-if admits (not (t.gateway_type == event.gateway_type)) _ _ here
        (elim (Result-cases (apply_method py admits event.selected_payment_method event db)) [
          | inl ((mid, conflict), e) ↦
              (let m =
                  Reach-apply_method now event.selected_payment_method event db mid conflict e in
                rw e (
                  Reach-if admits (is_null (get_owner t.user_id mid)) _ _ here (
                    Reach-receive_status event.new_status now token_hash conflict event t db mid
                      here m)))
          | inr (x, e) ↦ rw e here
        ])

  Reach-conclude :
      {s : Db} (now : Time) (p : ℕ) (done : Db × Result ProcessError Next)
      → Reach admits s done.0
      → Reach admits s (conclude py admits now p done).0
  unfolding conclude statement
  Reach-conclude now p (db, err e) r = r
  Reach-conclude now p (db, ok finished) r = r
  Reach-conclude now p (db, ok (fulfil conflict)) r = r
  Reach-conclude now p (db, ok (notify_refund conflict)) r = r
  Reach-conclude now p (db, ok (escalate conflict)) r =
      Reach-run admits db now (mark_alerted p none) (db, err refused) _ r r (λ db' hit r'. r')

  Reach-receive_early :
      (now : Time) (event : PaymentEvent) (db : Db)
      → Reach admits db (receive_early py admits now event db).0
  unfolding receive_early
  Reach-receive_early now event db =
      Reach-if admits (status_eq event.new_status pending || status_eq event.new_status failed) _ _
        here
        (elim (Option-cases (
          store_webhook_event now db.next_event_id event.payment_id event.gateway_type
            event.new_status event.selected_payment_method none db.inbox)) [
              | inl e ↦ rw e here
              | inr (inbox, e) ↦ rw e (aside here refl)
            ])

  pub Reach-receive :
      (now : Time) (token_hash : Text) (event : PaymentEvent) (db : Db)
      → Reach admits db (receive py admits now token_hash event db).0
  unfolding receive
  Reach-receive now token_hash event db =
      elim (Option-cases (get_by_payment_id event.payment_id db)) [
        | inl e ↦ rw (e, receive) (Reach-receive_early now event db)
        | inr (t, e) ↦
            rw (e, receive)
              (Reach-conclude now event.payment_id
                (receive_known py admits now token_hash event t db)
                (Reach-receive_known now token_hash event t db))
      ]
