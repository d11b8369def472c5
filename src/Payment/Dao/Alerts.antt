-- ===== src/Payment/Dao/Alerts.antt =====
-- The alerts to operators about operations that need manual work
-- (src/infrastructure/database/dao/payment_operation.py).
use remnashop.Prelude.{
  ℕ, ◌+◌, Bool, true, false, ◌&&◌, ◌||◌, Option, none, some, List, ◌==◌, leb, ltb, is_null, eq_col,
  le_col, take,
}
use remnashop.Prelude.Tables.{select_where, order_by}
use remnashop.Payment.Operation.{Time, Text, manual_required, status_eq, PaymentOperation, Db}
use remnashop.Payment.Dao.Defs.{Statement, update}
use remnashop.Payment.Dao.Reconciliation.{is_in}

-- ascending, NULL first
abbrev before_nulls_first : Option ℕ → Option ℕ → Bool → Bool
before_nulls_first none none tie = tie
before_nulls_first none (some _) tie = true
before_nulls_first (some _) none tie = false
before_nulls_first (some a) (some b) tie = ltb a b || (a == b && tie)

abbrev pub alertable : Time → PaymentOperation → Bool
alertable now r =
    status_eq r.status manual_required
    && is_null r.reconcile_alerted_at
    && (is_null r.reconcile_alert_next_attempt_at || le_col r.reconcile_alert_next_attempt_at now)
    && (is_null r.reconcile_alert_token_hash || le_col r.reconcile_alert_lease_expires_at now)

-- The subquery of `claim_manual_reconciliation_alerts`; `free` as in `expired_candidates`.
unfoldable pub alert_candidates : (ℕ → Bool) → Time → ℕ → Db → List PaymentOperation
alert_candidates free now limit db = take limit (
    order_by
      (λ r s.
        before_nulls_first r.reconcile_alert_next_attempt_at s.reconcile_alert_next_attempt_at
          (ltb r.updated_at s.updated_at || (r.updated_at == s.updated_at && leb r.id s.id)))
      (select_where (λ r. alertable now r && free r.id) db.operations))

unfoldable pub claim_manual_reconciliation_alerts :
    (ℕ → Bool) → Time → Text → ℕ → ℕ → Db → Statement
claim_manual_reconciliation_alerts free now token_hash lease_for limit db =
    let candidates = alert_candidates free now limit db in
    update (λ r. is_in r.id candidates)
      (λ r. record r {
        reconcile_alert_token_hash = some token_hash;
        reconcile_alert_lease_expires_at = some (now + lease_for);
        reconcile_alert_attempt_count = r.reconcile_alert_attempt_count + 1;
        updated_at = now;
      })

unfoldable pub mark_reconciliation_alerted : Time → ℕ → Text → Statement
mark_reconciliation_alerted now operation_id token_hash =
    update
      (λ r.
        r.id == operation_id
        && status_eq r.status manual_required
        && is_null r.reconcile_alerted_at
        && eq_col r.reconcile_alert_token_hash token_hash)
      (λ r. record r {
        reconcile_alerted_at = some now;
        reconcile_alert_token_hash = none;
        reconcile_alert_lease_expires_at = none;
        reconcile_alert_next_attempt_at = none;
        updated_at = now;
      })

unfoldable pub release_reconciliation_alert : Time → ℕ → Text → ℕ → Statement
release_reconciliation_alert now operation_id token_hash retry_after =
    update
      (λ r.
        r.id == operation_id
        && is_null r.reconcile_alerted_at
        && eq_col r.reconcile_alert_token_hash token_hash)
      (λ r. record r {
        reconcile_alert_token_hash = none;
        reconcile_alert_lease_expires_at = none;
        reconcile_alert_next_attempt_at = some (now + retry_after);
        updated_at = now;
      })
