-- ===== src/Fulfillment/Redelivery.antt =====
-- An event COMPLETED that comes again while the payment is worked on, or after it was fulfilled
-- (`ProcessPayment`, src/application/use_cases/gateways/commands/payment.py).
use remnashop.Prelude.{
  ◌≡◌, ◌≤◌, ◌&&◌, ◌||◌, refl, Bool, true, false, none, some, Bool-cases, inl, inr, arith, ℕ,
  if◌then◌else◌, ==-refl, Time, Text,
}
use remnashop.Prelude.Result.{ok}
use remnashop.Prelude.Tables.{count_where}
use remnashop.Fulfillment.Row.{
  Transaction, completed, fulfilling, fulfilled, fulfillment_eq, admissible,
}
use remnashop.Fulfillment.Statements.Events.{claimable}
use remnashop.Fulfillment.Statements.Fence.{expire_fulfillment, completed_or_refunded, has_expired}
use remnashop.Fulfillment.Db.{Db, run_statement, get_by_payment_id, lock_active_payment_owner}
use remnashop.Fulfillment.Statements.Laws.{count_unique, count-same}
use remnashop.Fulfillment.Calls.Kept.{of_payment}
use remnashop.Fulfillment.Process.{
  PaymentEvent, PyText, finished, receive, receive_known, receive_status, receive_completed,
  apply_method, conclude,
}
use remnashop.Fulfillment.Progress.{IsKnown, owner-there}
use remnashop.Fulfillment.Process.{lost_claim, lost_to, return_unless}
use remnashop.Fulfillment.Statements.Laws.{run-nothing}
use remnashop.Fulfillment.Retry.{claim-misses}
use remnashop.Prelude.{gt_col, ◌∙◌}

-- a claim that has not expired, or the proof of the purchase
abbrev pub is_underway : Time → Transaction → Bool
is_underway now t =
    fulfillment_eq t.fulfillment_status fulfilled
    || fulfillment_eq t.fulfillment_status fulfilling && gt_col t.fulfillment_lease_expires_at now

underway-unclaimable :
    (now : Time) (t : Transaction) → is_underway now t ≡ true → claimable t ≡ false
underway-unclaimable now t h = ground arith

underway-unexpired :
    (admits : Transaction → Bool) (now : Time) (p : ℕ) (t : Transaction) (db : Db)
    → count_where (of_payment p) db.transactions ≤ 1
    → get_by_payment_id p db ≡ some t
    → is_underway now t ≡ true
    → run_statement admits (expire_fulfillment now p) db ≡ some (db, false)
unfolding get_by_payment_id expire_fulfillment
underway-unexpired admits now p t db unique found h =
    let one =
      count_unique (of_payment p) (λ r. completed_or_refunded r && has_expired now r)
        db.transactions t unique found in
    let none_met : (completed_or_refunded t && has_expired now t) ≡ false = ground arith in
    let same =
      count-same (expire_fulfillment now p).test
        (λ r. of_payment p r && (completed_or_refunded r && has_expired now r)) (λ r. ground arith)
        db.transactions in
    let zero : (if completed_or_refunded t && has_expired now t then 1 else 0) ≡ 0 =
      rw none_met refl in
    run-nothing admits (expire_fulfillment now p) db (same ∙ one ∙ zero)

module _ (py : PyText) where
  lost-underway :
      (now : Time) (t : Transaction) (before db : Db)
      → IsKnown t.payment_id t db
      → is_underway now t ≡ true
      → lost_claim py admissible now false (some t) before db ≡ (db, ok finished)
  unfolding lost_claim lost_to return_unless
  lost-underway now t before db known h =
      elim (Bool-cases (fulfillment_eq t.fulfillment_status fulfilled)) [
        | inl proved ↦
            (let state : t.fulfillment_status ≡ fulfilled = ground arith in
              rw (lost_claim, state) refl)
        | inr other ↦
            (let state : t.fulfillment_status ≡ fulfilling = ground arith in
              let runs =
                underway-unexpired admissible now t.payment_id t db known.unique known.found h in
              rw (lost_claim, state, lost_to, runs) refl)
      ]

  completed-underway :
      (now : Time) (k : Text) (t : Transaction) (db : Db)
      → IsKnown t.payment_id t db
      → is_underway now t ≡ true
      → lock_active_payment_owner t.payment_id db ≡ true
      → receive_completed py admissible now k false t db db ≡ (db, ok finished)
  unfolding receive_completed
  completed-underway now k t db known h active =
      let missed =
        claim-misses admissible now t.payment_id k db t known.unique known.found
          (underway-unclaimable now t h) in
      rw (receive_completed, active, missed, known.found) (lost-underway now t db db known h)

  -- The event COMPLETED of a payment that a run works on within its lease, or that is fulfilled, from
  -- the right gateway, without a payment method and with the owner active, is answered as done and
  -- changes nothing: neither the claim of the run nor the record of the purchase.
  pub redelivery_changes_nothing :
      (now : Time) (k : Text) (event : PaymentEvent) (t : Transaction) (db : Db)
      → IsKnown t.payment_id t db
      → is_underway now t ≡ true
      → lock_active_payment_owner t.payment_id db ≡ true
      → event.payment_id ≡ t.payment_id
      → event.new_status ≡ completed
      → event.gateway_type ≡ t.gateway_type
      → event.selected_payment_method ≡ none
      → receive py admissible now k event db ≡ (db, ok finished)
  unfolding receive receive_known receive_status apply_method conclude
  redelivery_changes_nothing now k event t db known h active same status gateway method =
      let there = owner-there t db known.found active in
      let done = completed-underway now k t db known h active in
      let all : receive_known py admissible now k event t db ≡ (db, ok finished) =
        rw (receive_known, gateway, ==-refl, method, apply_method, there, receive_status, status)
          done in
      rw (receive, same, known.found, all) refl
