-- ===== src/Payment/Dao/Held.antt =====
-- The writes that only the holder of a live reconciliation token makes
-- (src/infrastructure/database/dao/payment_operation.py).
use remnashop.Prelude.{ℕ, ◌+◌, Bool, ◌&&◌, ◌||◌, Option, none, some, ◌==◌, is_null, eq_col, gt_col}
use remnashop.Payment.Operation.{
  Time, Text, Json, succeeded, unknown, manual_required, status_eq, awaiting_fulfillment, ErrorCode,
  PaymentOperation,
}
use remnashop.Payment.Dao.Defs.{Statement, update}

-- the conditions that the six statements share
abbrev pub holds_lease : Time → ℕ → Text → PaymentOperation → Bool
holds_lease now operation_id token_hash r =
    r.id == operation_id
    && (status_eq r.status unknown || status_eq r.status manual_required)
    && eq_col r.reconcile_token_hash token_hash
    && gt_col r.reconcile_lease_expires_at now

unfoldable pub release_reconciliation : Time → ℕ → Text → ℕ → ErrorCode → Statement
release_reconciliation now operation_id token_hash retry_after error_code =
    update (holds_lease now operation_id token_hash) (λ r. record r {
      reconcile_token_hash = none;
      reconcile_lease_expires_at = none;
      reconcile_next_attempt_at = some (now + retry_after);
      reconcile_last_error = some error_code;
      updated_at = now;
    })

unfoldable pub checkpoint_reconciliation_result : Time → ℕ → Text → Json → Statement
checkpoint_reconciliation_result now operation_id token_hash result =
    update
      (λ r.
        holds_lease now operation_id token_hash r
        && (is_null r.provider_result_snapshot || eq_col r.provider_result_snapshot result))
      (λ r. record r { provider_result_snapshot = some result; updated_at = now })

unfoldable pub mark_manual_required : Time → ℕ → Text → ErrorCode → Statement
mark_manual_required now operation_id token_hash error_code =
    update (holds_lease now operation_id token_hash) (λ r. record r {
      status = manual_required;
      reconcile_token_hash = none;
      reconcile_lease_expires_at = none;
      reconcile_next_attempt_at = none;
      reconcile_last_error = some error_code;
      updated_at = now;
    })

unfoldable pub link_manual_reconciliation : Time → ℕ → Text → ℕ → ErrorCode → Statement
link_manual_reconciliation now operation_id token_hash transaction_id error_code =
    update (λ r. holds_lease now operation_id token_hash r && is_null r.transaction_id)
      (λ r. record r {
        status = manual_required;
        transaction_id = some transaction_id;
        reconcile_token_hash = none;
        reconcile_lease_expires_at = none;
        reconcile_next_attempt_at = none;
        reconcile_last_error = some error_code;
        updated_at = now;
      })

unfoldable pub link_pending_fulfillment_reconciliation : Time → ℕ → Text → ℕ → Json → ℕ → Statement
link_pending_fulfillment_reconciliation now operation_id token_hash transaction_id result
      retry_after =
    update (λ r. holds_lease now operation_id token_hash r && is_null r.transaction_id)
      (λ r. record r {
        transaction_id = some transaction_id;
        provider_result_snapshot = some result;
        reconcile_token_hash = none;
        reconcile_lease_expires_at = none;
        reconcile_next_attempt_at = some (now + retry_after);
        reconcile_last_error = some awaiting_fulfillment;
        updated_at = now;
      })

-- a given provider result replaces the column, and none leaves it
abbrev or_kept : Option Json → Option Json → Option Json
or_kept none kept = kept
or_kept (some new) kept = some new

unfoldable pub complete_reconciliation : Time → ℕ → Text → ℕ → Json → Option Json → Statement
complete_reconciliation now operation_id token_hash transaction_id response result =
    update
      (λ r.
        holds_lease now operation_id token_hash r
        && (is_null r.transaction_id || eq_col r.transaction_id transaction_id))
      (λ r. record r {
        status = succeeded;
        transaction_id = some transaction_id;
        response = some response;
        lease_expires_at = none;
        reconcile_token_hash = none;
        reconcile_lease_expires_at = none;
        reconcile_next_attempt_at = none;
        reconcile_last_error = none;
        provider_result_snapshot = or_kept result r.provider_result_snapshot;
        updated_at = now;
      })
