-- ===== src/Payment/Invariant.antt =====
-- The CHECK constraints of `payment_operations` (src/infrastructure/database/models/) and the
-- discipline of tokens, for one row and for a table.
pub mod Preserved
pub mod Selected
pub mod Steps
use remnashop.Prelude.{
  ℕ, ◌<◌, ◌≡◌, Bool, true, false, List, Option, some, is_null, is_not_null, ◌||◌, All,
}
use remnashop.Payment.Operation.{
  Status, claimed, processing, succeeded, unknown, manual_required, status_eq, PaymentOperation, Db,
  Time,
}
use remnashop.Payment.Calls.{StatementCall, expire_reconciliations}
use remnashop.Payment.Keys.{Keyed}
use remnashop.Payment.Dao.Reconciliation.{expired_candidates, expired_reconciliation, is_in}

-- A request owns the row: CLAIMED or PROCESSING.
abbrev pub is_leased : Status → Bool
is_leased claimed = true
is_leased processing = true
is_leased _ = false

abbrev pub is_reconcilable : Status → Bool
is_reconcilable s = status_eq s unknown || status_eq s manual_required

pub record IsConsistent (r : PaymentOperation) : Type 0 where
  -- ck_payment_operations_lease
  pub lease : is_not_null r.lease_expires_at ≡ is_leased r.status
  -- ck_payment_operations_reconcile_lease
  pub reconcile_lease : is_null r.reconcile_token_hash ≡ is_null r.reconcile_lease_expires_at
  -- ck_payment_operations_succeeded_transaction
  pub succeeded_transaction : r.status ≡ succeeded → is_not_null r.transaction_id ≡ true
  pub succeeded_response : r.status ≡ succeeded → is_not_null r.response ≡ true
  -- a reconciliation token stands only on a row that waits for reconciliation
  pub token_status : is_not_null r.reconcile_token_hash ≡ true → is_reconcilable r.status ≡ true

-- The primary key holds, the sequence has not given later ids out, and every row meets the CHECKs.
pub record IsTable (db : Db) : Type 0 where
  pub keyed : Keyed db.operations
  pub fresh : All (λ r. r.id < db.next_id) db.operations
  pub consistent : All IsConsistent db.operations

-- What the subquery of `expire_reconciliations` gives for a row: see `expired_candidates_sound`.
abbrev pub Selects : Time → StatementCall → Db → PaymentOperation → Type 0
Selects now (expire_reconciliations free n) db r =
    is_in r.id (expired_candidates free now n db) ≡ true → expired_reconciliation now r ≡ true
Selects now _ db r = Unit
