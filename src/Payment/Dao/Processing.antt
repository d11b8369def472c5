-- ===== src/Payment/Dao/Processing.antt =====
-- The statements on a row whose payment is under way, and `complete`
-- (src/infrastructure/database/dao/payment_operation.py).
use remnashop.Prelude.{
  ℕ, ◌+◌, Bool, true, false, not, ◌&&◌, ◌||◌, Option, none, some, List, ◌==◌, is_null, is_not_null,
  eq_col, le_col,
}
use remnashop.Prelude.Tables.{find_where}
use mathlib.Core.Option
use remnashop.Payment.Operation.{
  Time, Text, Json, claimed, processing, succeeded, unknown, status_eq, RecoveryMode, local,
  mode_eq, PaymentOperation, Transaction, FulfillmentStatus, fulfilled, Db,
}
use remnashop.Payment.Dao.Defs.{Statement, update}

unfoldable pub mark_processing :
    Time → ℕ → ℕ → Text → Json → Json → Option Text → RecoveryMode → Option ℕ → Statement
mark_processing now operation_id lease_for gateway resolved request owner_hash mode replay_for =
    update (λ r. r.id == operation_id && status_eq r.status claimed)
      (λ r. record r {
        status = processing;
        lease_expires_at = some (now + lease_for);
        gateway_type = some gateway;
        resolved_payment_snapshot = some resolved;
        provider_request_snapshot = some request;
        provider_owner_hash = owner_hash;
        recovery_mode = mode;
        provider_replay_expires_at = Option.map (λ d. now + d) replay_for;
        updated_at = now;
      })

unfoldable pub checkpoint_provider_result : Time → ℕ → Json → Statement
checkpoint_provider_result now operation_id result =
    update
      (λ r.
        r.id == operation_id
        && status_eq r.status processing
        && (is_null r.provider_result_snapshot || eq_col r.provider_result_snapshot result))
      (λ r. record r { provider_result_snapshot = some result; updated_at = now })

unfoldable pub link_transaction : Time → ℕ → ℕ → Statement
link_transaction now operation_id transaction_id =
    update
      (λ r.
        r.id == operation_id
        && status_eq r.status processing
        && (is_null r.transaction_id || eq_col r.transaction_id transaction_id))
      (λ r. record r { transaction_id = some transaction_id; updated_at = now })

abbrev is_fulfilled : FulfillmentStatus → Bool
is_fulfilled fulfilled = true
is_fulfilled _ = false

-- `exists(select(Transaction.id).where(Transaction.id == PaymentOperation.transaction_id, ...))`
unfoldable pub linked_exists : (Transaction → Bool) → List Transaction → PaymentOperation → Bool
linked_exists test transactions r =
    is_not_null (find_where (λ t. eq_col r.transaction_id t.id && test t) transactions)

unfoldable pub linked_free : Db → PaymentOperation → Bool
unfolding linked_exists
linked_free db = linked_exists (λ t. t.final_amount == 0) db.transactions

unfoldable pub linked_fulfilled : Db → PaymentOperation → Bool
unfolding linked_exists
linked_fulfilled db =
    linked_exists (λ t. is_fulfilled t.fulfillment_status && is_not_null t.fulfillment_completed_at)
      db.transactions

-- the condition of the UPDATE in `complete`
unfoldable pub completable : Db → Json → PaymentOperation → Bool
completable db response r =
    (status_eq r.status processing
      && is_not_null r.transaction_id
      && ((not (mode_eq r.recovery_mode local) && not (linked_free db r)) || linked_fulfilled db r))
    || (status_eq r.status succeeded && eq_col r.response response)

unfoldable pub complete : Time → ℕ → Json → Db → Statement
unfolding completable
complete now operation_id response db =
    update (λ r. r.id == operation_id && completable db response r)
      (λ r. record r {
        status = succeeded;
        response = some response;
        lease_expires_at = none;
        updated_at = now;
      })

unfoldable pub mark_unknown : Time → ℕ → Statement
mark_unknown now operation_id =
    update (λ r. r.id == operation_id && status_eq r.status processing)
      (λ r. record r { status = unknown; lease_expires_at = none; updated_at = now })

unfoldable pub expire_processing : Time → ℕ → Statement
expire_processing now operation_id =
    update
      (λ r. r.id == operation_id && status_eq r.status processing && le_col r.lease_expires_at now)
      (λ r. record r { status = unknown; lease_expires_at = none; updated_at = now })
