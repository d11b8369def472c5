-- ===== src/Fulfillment/Retry.antt =====
-- `RetryFailedTransaction` (src/application/use_cases/gateways/commands/payment.py), and what it can do
-- under the CHECK constraints of `transactions`.
use remnashop.Prelude.{
  ◌≡◌, sym, ◌≤◌, not, refl, Bool, true, false, none, some, Bool-cases, Option-cases, inl, inr,
  arith, ℕ, if◌then◌else◌, All, ==-refl, Time, Text, is_null,
}
use mathlib.Core.Path.{subst}
use remnashop.Prelude.Result.{Result, err}
use remnashop.Prelude.Tables.{count_where}
use remnashop.Prelude.Tables.Laws.{All-find}
use remnashop.Fulfillment.Row.{
  Transaction, completed, failed, fulfillment_manual, status_eq, admissible, fulfillment_state,
  cancellation_state,
}
use remnashop.Fulfillment.Statements.Events.{claim_fulfillment, claimable}
use remnashop.Fulfillment.Db.{
  Db, run_statement, get_by_payment_id, get_owner, lock_active_payment_owner,
}
use remnashop.Fulfillment.Process.{
  PaymentEvent, ProcessError, not_found, not_retryable, not_applied, owner_unavailable, PyText,
  Next, receive, receive_known, receive_status, receive_completed, apply_method, conclude,
  lost_claim, lost_to, fulfillment_lease,
}
use remnashop.Fulfillment.Statements.Laws.{count_unique, run-nothing}
use remnashop.Fulfillment.Calls.Won.{found_payment}
use remnashop.Fulfillment.Calls.Kept.{of_payment}

-- the event that a retry makes
unfoldable pub retry_event : ℕ → Text → PaymentEvent
retry_event payment_id gateway_type = record {
  payment_id = payment_id;
  new_status = completed;
  gateway_type = gateway_type;
  selected_payment_method = none;
  defer_unreachable_fulfillment = false;
}

module _ (py : PyText) (admits : Transaction → Bool) where
  unfoldable pub retry_failed_transaction : Time → Text → ℕ → Db → Db × Result ProcessError Next
  unfolding get_by_payment_id receive retry_event
  retry_failed_transaction now token_hash payment_id db = elim (get_by_payment_id payment_id db) [
    | none ↦ (db, err not_found)
    | some t ↦
        if not (status_eq t.status failed)
        then (db, err not_retryable)
        else receive py admits now token_hash (retry_event payment_id t.gateway_type) db
  ]

failed-manual :
    (t : Transaction)
    → admissible t ≡ true
    → status_eq t.status failed ≡ true
    → (t.fulfillment_status ≡ fulfillment_manual) × (claimable t ≡ false)
unfolding admissible fulfillment_state cancellation_state
failed-manual t a f = (ground arith, ground arith)

pub claim-misses :
    (admits : Transaction → Bool) (now : Time) (p : ℕ) (k : Text) (db : Db) (t : Transaction)
    → count_where (of_payment p) db.transactions ≤ 1
    → get_by_payment_id p db ≡ some t
    → claimable t ≡ false
    → run_statement admits (claim_fulfillment now p k fulfillment_lease) db ≡ some (db, false)
unfolding claim_fulfillment get_by_payment_id
claim-misses admits now p k db t unique found lost =
    let one = count_unique (of_payment p) claimable db.transactions t unique found in
    run-nothing admits (claim_fulfillment now p k fulfillment_lease) db (rw lost at one)

module _ (py : PyText) (admits : Transaction → Bool) where
  -- The event COMPLETED of a payment in manual review, without a payment method.
  completed-manual :
      (now : Time) (k : Text) (before db : Db) (t : Transaction)
      → count_where (of_payment t.payment_id) db.transactions ≤ 1
      → get_by_payment_id t.payment_id db ≡ some t
      → claimable t ≡ false
      → t.fulfillment_status ≡ fulfillment_manual
      → (e : ProcessError) × (receive_completed py admits now k false t before db ≡ (before, err e))
  unfolding receive_completed lost_claim lost_to
  completed-manual now k before db t unique found lost manual =
      elim (Bool-cases (lock_active_payment_owner t.payment_id db)) [
        | inr inactive ↦ (owner_unavailable, rw (receive_completed, inactive) refl)
        | inl active ↦
            (let missed = claim-misses admits now t.payment_id k db t unique found lost in
              (
                not_applied,
                rw (receive_completed, active, missed, found, lost_claim, lost_to, manual) refl,
              ))
      ]

  retried-known :
      (now : Time) (k : Text) (db : Db) (t : Transaction)
      → count_where (of_payment t.payment_id) db.transactions ≤ 1
      → get_by_payment_id t.payment_id db ≡ some t
      → claimable t ≡ false
      → t.fulfillment_status ≡ fulfillment_manual
      → (e : ProcessError) × (receive_known py admits now k
            (retry_event t.payment_id t.gateway_type)
            t
            db
          ≡ (db, err e))
  unfolding receive_known retry_event apply_method receive_status
  retried-known now k db t unique found lost manual =
      elim (Bool-cases (is_null (get_owner t.user_id db))) [
        | inl gone ↦ (not_applied, rw (receive_known, ==-refl, gone) refl)
        | inr there ↦
            (let (e, done) = completed-manual now k db db t unique found lost manual in
              (e, rw (receive_known, ==-refl, there) done))
      ]

  retried :
      (now : Time) (k : Text) (db : Db) (t : Transaction)
      → count_where (of_payment t.payment_id) db.transactions ≤ 1
      → get_by_payment_id t.payment_id db ≡ some t
      → claimable t ≡ false
      → t.fulfillment_status ≡ fulfillment_manual
      → (e : ProcessError) × (receive py admits now k (retry_event t.payment_id t.gateway_type) db
          ≡ (db, err e))
  unfolding receive retry_event conclude
  retried now k db t unique found lost manual =
      let (e, done) = retried-known now k db t unique found lost manual in
      (e, rw (receive, found, done) refl)

  -- On a table that meets the CHECK constraints and where the payment has one row at most, the retry
  -- of a payment always raises and changes nothing: a payment that is not FAILED is not retryable,
  -- and the CHECKs leave a FAILED payment in manual review only, where the event COMPLETED never
  -- claims it.
  pub retry_never_fulfils :
      (now : Time) (k : Text) (p : ℕ) (db : Db)
      → count_where (of_payment p) db.transactions ≤ 1
      → All (λ r. admissible r ≡ true) db.transactions
      → (e : ProcessError) × (retry_failed_transaction py admits now k p db ≡ (db, err e))
  unfolding retry_failed_transaction get_by_payment_id
  retry_never_fulfils now k p db unique checks = elim (Option-cases (get_by_payment_id p db)) [
    | inl e ↦ (not_found, rw (retry_failed_transaction, e) refl)
    | inr (t, e) ↦ elim (Bool-cases (status_eq t.status failed)) [
      | inr other ↦ (not_retryable, rw (retry_failed_transaction, e, other) refl)
      | inl is_failed ↦
          (let same = found_payment p t db e in
            let fits =
              All-find (λ r. admissible r ≡ true) (of_payment p) db.transactions t checks e in
            let (manual, lost) = failed-manual t fits is_failed in
            let unique_t =
              subst (λ n. count_where (of_payment n) db.transactions ≤ 1) (sym same) unique in
            let found_t = subst (λ n. get_by_payment_id n db ≡ some t) (sym same) e in
            let (x, done) = retried now k db t unique_t found_t lost manual in
            let event : retry_event p t.gateway_type ≡ retry_event t.payment_id t.gateway_type =
              rw same refl in
            (x, rw (retry_failed_transaction, e, is_failed, event) done))
    ]
  ]
