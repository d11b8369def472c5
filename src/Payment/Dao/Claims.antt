-- ===== src/Payment/Dao/Claims.antt =====
-- `claim`, the reads, and the statements on a claimed row
-- (src/infrastructure/database/dao/payment_operation.py).
use remnashop.Prelude.{
  ℕ, suc, ◌+◌, Bool, true, false, ◌&&◌, Option, none, some, [], ◌∷◌, ◌++◌, ◌==◌, if◌then◌else◌,
  le_col,
}
use remnashop.Prelude.Result.{Result, ok, err}
use remnashop.Prelude.Tables.{find_where}
use remnashop.Payment.Operation.{
  Time, Text, claimed, OperationKind, kind_eq, status_eq, manual, PaymentOperation, Owner, Db,
  DaoError, owner_merged,
}
use remnashop.Payment.Dao.Defs.{Statement, update, delete}

-- `_lock_active_owner`: `true` unless it raises
owner_active : Option Owner → Bool
owner_active none = false
owner_active (some owner) = elim owner.merged_into_user_id [ none ↦ true | some _ ↦ false ]

unfoldable pub lock_active_owner : ℕ → Db → Bool
unfolding owner_active
lock_active_owner user_id db = owner_active (find_where (λ u. u.id == user_id) db.owners)

unfoldable pub get_by_id : ℕ → Db → Option PaymentOperation
get_by_id operation_id db = find_where (λ r. r.id == operation_id) db.operations

-- the three columns of `uq_payment_operations_identity`
abbrev pub has_identity : ℕ → OperationKind → Text → PaymentOperation → Bool
has_identity user_id operation key r =
    r.user_id == user_id && kind_eq r.operation operation && r.idempotency_key == key

unfoldable pub get_by_identity : ℕ → OperationKind → Text → Db → Option PaymentOperation
get_by_identity user_id operation key db =
    find_where (has_identity user_id operation key) db.operations

-- the row that the INSERT of `claim` writes, with the defaults of the other columns
unfoldable pub claimed_row :
    ℕ → Time → ℕ → OperationKind → Text → Text → Text → ℕ → PaymentOperation
claimed_row id now user_id operation key hash provider_key lease_for = record {
  id = id;
  user_id = user_id;
  operation = operation;
  idempotency_key = key;
  request_hash = hash;
  status = claimed;
  provider_key = provider_key;
  response = none;
  lease_expires_at = some (now + lease_for);
  transaction_id = none;
  gateway_type = none;
  resolved_payment_snapshot = none;
  provider_request_snapshot = none;
  provider_owner_hash = none;
  provider_result_snapshot = none;
  recovery_mode = manual;
  provider_replay_expires_at = none;
  reconcile_token_hash = none;
  reconcile_lease_expires_at = none;
  reconcile_attempt_count = 0;
  reconcile_next_attempt_at = none;
  reconcile_last_attempt_at = none;
  reconcile_last_error = none;
  reconcile_alerted_at = none;
  reconcile_alert_token_hash = none;
  reconcile_alert_lease_expires_at = none;
  reconcile_alert_attempt_count = 0;
  reconcile_alert_next_attempt_at = none;
  created_at = now;
  updated_at = now;
}

-- `on_conflict_do_nothing(constraint="uq_payment_operations_identity")`: the row goes in unless its
-- identity is taken. The sequence moves on in either case.
unfoldable pub insert_or_existing :
    Option PaymentOperation → PaymentOperation → Db → Db × Result DaoError (PaymentOperation × Bool)
insert_or_existing none row db =
    (record db { operations = db.operations ++ row ∷ []; next_id = suc db.next_id }, ok (row, true))
insert_or_existing (some existing) row db =
    (record db { next_id = suc db.next_id }, ok (existing, false))

unfoldable pub claim :
    Time
    → ℕ
    → OperationKind
    → Text
    → Text
    → Text
    → ℕ
    → Db
    → Db × Result DaoError (PaymentOperation × Bool)
unfolding insert_or_existing lock_active_owner get_by_identity claimed_row
claim now user_id operation key hash provider_key lease_for db =
    if lock_active_owner user_id db
    then insert_or_existing (get_by_identity user_id operation key db)
        (claimed_row db.next_id now user_id operation key hash provider_key lease_for) db
    else (db, err owner_merged)

unfoldable pub reclaim_claimed : Time → ℕ → ℕ → Statement
reclaim_claimed now operation_id lease_for =
    update
      (λ r. r.id == operation_id && status_eq r.status claimed && le_col r.lease_expires_at now)
      (λ r. record r { lease_expires_at = some (now + lease_for); updated_at = now })

unfoldable pub delete_expired_claimed : Time → ℕ → Statement
delete_expired_claimed now operation_id =
    delete
      (λ r. r.id == operation_id && status_eq r.status claimed && le_col r.lease_expires_at now)

unfoldable pub delete_claimed : ℕ → Statement
delete_claimed operation_id = delete (λ r. r.id == operation_id && status_eq r.status claimed)
