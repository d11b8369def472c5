-- ===== src/Payment/Dao/Reconciliation.antt =====
-- The statements of a reconciliation run: its claim, and the writes that only the holder of the
-- claim's token makes (src/infrastructure/database/dao/payment_operation.py).
use remnashop.Prelude.{
  ℕ, ◌+◌, Bool, true, false, ◌&&◌, ◌||◌, Option, none, some, List, [], ◌∷◌, ◌==◌, leb, ltb,
  if◌then◌else◌, is_null, is_not_null, le_col, take,
}
use remnashop.Prelude.Result.{Result, ok, err}
use remnashop.Prelude.Tables.{select_where, order_by}
use remnashop.Payment.Operation.{
  Time, Text, unknown, manual_required, status_eq, yookassa_replay, mode_eq,
  provider_replay_expired, retries_exhausted, lease_expired, PaymentOperation, Db, DaoError,
  owner_merged,
}
use remnashop.Payment.Dao.Defs.{Statement, update, execute}
use remnashop.Payment.Dao.Claims.{lock_active_owner, get_by_id}

unfoldable pub claim_reconciliation_stmt : Time → ℕ → Text → ℕ → Statement
claim_reconciliation_stmt now operation_id token_hash lease_for =
    update
      (λ r.
        r.id == operation_id
        && status_eq r.status unknown
        && (is_null r.reconcile_next_attempt_at || le_col r.reconcile_next_attempt_at now)
        && is_null r.reconcile_token_hash)
      (λ r. record r {
        reconcile_token_hash = some token_hash;
        reconcile_lease_expires_at = some (now + lease_for);
        reconcile_attempt_count = r.reconcile_attempt_count + 1;
        reconcile_last_attempt_at = some now;
        reconcile_last_error = none;
        updated_at = now;
      })

-- `_lock_operation_owner`, then the UPDATE
unfoldable pub claim_for_owner :
    Option PaymentOperation → Statement → Db → Db × Result DaoError Bool
unfolding lock_active_owner execute
claim_for_owner none s db = (db, ok false)
claim_for_owner (some r) s db =
    if lock_active_owner r.user_id db
    then (let (db', done) = execute s db in (db', ok done))
    else (db, err owner_merged)

unfoldable pub claim_reconciliation : Time → ℕ → Text → ℕ → Db → Db × Result DaoError Bool
unfolding claim_for_owner claim_reconciliation_stmt get_by_id
claim_reconciliation now operation_id token_hash lease_for db =
    claim_for_owner (get_by_id operation_id db)
      (claim_reconciliation_stmt now operation_id token_hash lease_for) db

unfoldable pub mark_expired_provider_replay_manual : Time → ℕ → Statement
mark_expired_provider_replay_manual now operation_id =
    update
      (λ r.
        r.id == operation_id
        && status_eq r.status unknown
        && mode_eq r.recovery_mode yookassa_replay
        && is_null r.provider_result_snapshot
        && is_not_null r.provider_replay_expires_at
        && le_col r.provider_replay_expires_at now
        && is_null r.reconcile_token_hash)
      (λ r. record r {
        status = manual_required;
        reconcile_next_attempt_at = none;
        reconcile_last_error = some provider_replay_expired;
        updated_at = now;
      })

unfoldable pub mark_exhausted_reconciliation_manual : Time → ℕ → ℕ → Statement
mark_exhausted_reconciliation_manual now operation_id max_attempts =
    update
      (λ r.
        r.id == operation_id
        && status_eq r.status unknown
        && is_null r.reconcile_token_hash
        && leb max_attempts r.reconcile_attempt_count)
      (λ r. record r {
        status = manual_required;
        reconcile_next_attempt_at = none;
        reconcile_last_error = some retries_exhausted;
        updated_at = now;
      })

-- ascending, NULL last
abbrev pub before_nulls_last : Option ℕ → Option ℕ → Bool → Bool
before_nulls_last none none tie = tie
before_nulls_last none (some _) tie = false
before_nulls_last (some _) none tie = true
before_nulls_last (some a) (some b) tie = ltb a b || (a == b && tie)

abbrev pub is_in : ℕ → List PaymentOperation → Bool
is_in id [] = false
is_in id (r ∷ rows) = id == r.id || is_in id rows

abbrev pub expired_reconciliation : Time → PaymentOperation → Bool
expired_reconciliation now r =
    status_eq r.status unknown
    && is_not_null r.reconcile_token_hash
    && le_col r.reconcile_lease_expires_at now

-- The subquery of `expire_reconciliations`. `free` tells the rows that no other transaction has
-- locked: the others are skipped.
unfoldable pub expired_candidates : (ℕ → Bool) → Time → ℕ → Db → List PaymentOperation
expired_candidates free now limit db = take limit (
    order_by
      (λ r s.
        before_nulls_last r.reconcile_lease_expires_at s.reconcile_lease_expires_at (leb r.id s.id))
      (select_where (λ r. expired_reconciliation now r && free r.id) db.operations))

unfoldable pub expire_reconciliations : (ℕ → Bool) → Time → ℕ → Db → Statement
expire_reconciliations free now limit db =
    let candidates = expired_candidates free now limit db in
    update (λ r. is_in r.id candidates)
      (λ r. record r {
        status = manual_required;
        reconcile_next_attempt_at = none;
        reconcile_last_error = some lease_expired;
        updated_at = now;
      })
