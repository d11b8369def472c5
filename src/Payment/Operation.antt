-- ===== src/Payment/Operation.antt =====
-- The rows that a payment operation stands in, and the database that the statements run on
-- (src/application/common/dao/payment_operation.py, src/infrastructure/database/models/).
-- Instants are microseconds. A text, a hash or a JSON document is only stored and compared for
-- equality here, so each is a number that stands for it.
pub use remnashop.Prelude.{Time, Text, Json}
use remnashop.Prelude.{ℕ, Bool, Option, List, ◌==◌}

-- `PaymentOperationStatus`
pub data Status : Type 0 where
  claimed processing succeeded unknown manual_required : Status

-- `PaymentOperationRecoveryMode`; its MANUAL_REQUIRED is `manual`
pub data RecoveryMode : Type 0 where
  manual local yookassa_replay : RecoveryMode

-- the values that the CHECK on `operation` admits
pub data OperationKind : Type 0 where
  purchase extend : OperationKind

-- what `reconcile_last_error` holds: the literals of the statements, and the codes of callers
pub data ErrorCode : Type 0 where
  provider_replay_expired retries_exhausted lease_expired awaiting_fulfillment : ErrorCode
  other_code : Text → ErrorCode

abbrev status_code : Status → ℕ
status_code claimed = 0
status_code processing = 1
status_code succeeded = 2
status_code unknown = 3
status_code manual_required = 4

abbrev pub status_eq : Status → Status → Bool
status_eq s t = status_code s == status_code t

abbrev mode_code : RecoveryMode → ℕ
mode_code manual = 0
mode_code local = 1
mode_code yookassa_replay = 2

abbrev pub mode_eq : RecoveryMode → RecoveryMode → Bool
mode_eq a b = mode_code a == mode_code b

abbrev kind_code : OperationKind → ℕ
kind_code purchase = 0
kind_code extend = 1

abbrev pub kind_eq : OperationKind → OperationKind → Bool
kind_eq a b = kind_code a == kind_code b

-- A row of `payment_operations`, as `PaymentOperationRecord` shows it.
pub record PaymentOperation : Type 0 where
  pub id : ℕ
  pub user_id : ℕ
  pub operation : OperationKind
  pub idempotency_key : Text
  pub request_hash : Text
  pub status : Status
  pub provider_key : Text
  pub response : Option Json
  pub lease_expires_at : Option Time
  pub transaction_id : Option ℕ
  pub gateway_type : Option Text
  pub resolved_payment_snapshot : Option Json
  pub provider_request_snapshot : Option Json
  pub provider_owner_hash : Option Text
  pub provider_result_snapshot : Option Json
  pub recovery_mode : RecoveryMode
  pub provider_replay_expires_at : Option Time
  pub reconcile_token_hash : Option Text
  pub reconcile_lease_expires_at : Option Time
  pub reconcile_attempt_count : ℕ
  pub reconcile_next_attempt_at : Option Time
  pub reconcile_last_attempt_at : Option Time
  pub reconcile_last_error : Option ErrorCode
  pub reconcile_alerted_at : Option Time
  pub reconcile_alert_token_hash : Option Text
  pub reconcile_alert_lease_expires_at : Option Time
  pub reconcile_alert_attempt_count : ℕ
  pub reconcile_alert_next_attempt_at : Option Time
  pub created_at : Time
  pub updated_at : Time

-- `TransactionFulfillmentStatus`
pub data FulfillmentStatus : Type 0 where
  not_started fulfilling fulfilled fulfillment_manual : FulfillmentStatus

-- The columns of `transactions` that the statements on operations read; `final_amount` is the
-- amount of `pricing` in its smallest unit.
pub record Transaction : Type 0 where
  pub id : ℕ
  pub user_id : ℕ
  pub final_amount : ℕ
  pub fulfillment_status : FulfillmentStatus
  pub fulfillment_completed_at : Option Time

-- The columns of `users` that they read.
pub record Owner : Type 0 where
  pub id : ℕ
  pub merged_into_user_id : Option ℕ

-- The tables, and the value that the sequence of `payment_operations.id` gives next.
pub record Db : Type 0 where
  pub operations : List PaymentOperation
  pub transactions : List Transaction
  pub owners : List Owner
  pub next_id : ℕ

-- `PaymentOperationOwnerMergedError`. The `RuntimeError` of `claim` needs another transaction
-- between its two statements; here calls run one after another, so it does not arise.
pub data DaoError : Type 0 where
  owner_merged : DaoError
