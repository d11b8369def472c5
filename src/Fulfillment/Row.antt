-- ===== src/Fulfillment/Row.antt =====
-- A row of `transactions` and its CHECK constraints
-- (src/infrastructure/database/models/transaction.py, src/core/enums.py).
pub use remnashop.Payment.Operation.{
  FulfillmentStatus, not_started, fulfilling, fulfilled, fulfillment_manual, Owner,
}
use remnashop.Prelude.{
  if◌then◌else◌, ℕ, Time, Text, Bool, true, false, ◌&&◌, ◌||◌, Option, some, ◌==◌, is_null,
  is_not_null,
}

-- `TransactionStatus`
pub data Status : Type 0 where
  pending completed canceled refunded failed : Status

-- the values that the CHECK on `cancellation_reason` admits
pub data Cancellation : Type 0 where
  provider local_timeout legacy_unknown : Cancellation

-- what `fulfillment_last_error` holds
pub data ErrorCode : Type 0 where
  panel_unreachable lease_expired lease_expired_during_merge side_effect_failed : ErrorCode
  refund_during_unproven_fulfillment refund_during_completed_side_effect : ErrorCode
  result_after_lease legacy_completed_without_proof : ErrorCode

abbrev status_code : Status → ℕ
status_code pending = 0
status_code completed = 1
status_code canceled = 2
status_code refunded = 3
status_code failed = 4

abbrev pub status_eq : Status → Status → Bool
status_eq s t = status_code s == status_code t

abbrev fulfillment_code : FulfillmentStatus → ℕ
fulfillment_code not_started = 0
fulfillment_code fulfilling = 1
fulfillment_code fulfilled = 2
fulfillment_code fulfillment_manual = 3

abbrev pub fulfillment_eq : FulfillmentStatus → FulfillmentStatus → Bool
fulfillment_eq s t = fulfillment_code s == fulfillment_code t

abbrev pub is_local_timeout : Option Cancellation → Bool
is_local_timeout (some local_timeout) = true
is_local_timeout _ = false

abbrev pub is_by_provider : Option Cancellation → Bool
is_by_provider (some provider) = true
is_by_provider _ = false

abbrev pub is_panel_unreachable : Option ErrorCode → Bool
is_panel_unreachable (some panel_unreachable) = true
is_panel_unreachable _ = false

abbrev pub is_legacy : Option ErrorCode → Bool
is_legacy (some legacy_completed_without_proof) = true
is_legacy _ = false

-- the columns that fulfilment reads or writes
pub record Transaction : Type 0 where
  pub id : ℕ
  pub payment_id : ℕ
  pub user_id : ℕ
  pub status : Status
  pub cancellation_reason : Option Cancellation
  pub is_test : Bool
  pub gateway_type : Text
  pub payment_method : Option Text
  pub fulfillment_status : FulfillmentStatus
  pub fulfillment_token_hash : Option Text
  pub fulfillment_started_at : Option Time
  pub fulfillment_lease_expires_at : Option Time
  pub fulfillment_completed_at : Option Time
  pub fulfillment_last_error : Option ErrorCode
  pub fulfillment_alerted_at : Option Time
  pub fulfillment_alert_token_hash : Option Text
  pub fulfillment_alert_lease_expires_at : Option Time
  pub fulfillment_alert_attempt_count : ℕ
  pub fulfillment_alert_next_attempt_at : Option Time
  pub created_at : Time

-- `ck_transactions_fulfillment_state`
unfoldable pub fulfillment_state : Transaction → Bool
fulfillment_state r = elim r.fulfillment_status [
  | not_started ↦
      is_null r.fulfillment_token_hash
      && is_null r.fulfillment_lease_expires_at
      && is_null r.fulfillment_started_at
      && is_null r.fulfillment_completed_at
      && (status_eq r.status pending || status_eq r.status canceled || status_eq r.status refunded)
  | fulfilling ↦
      is_not_null r.fulfillment_token_hash
      && is_not_null r.fulfillment_lease_expires_at
      && is_not_null r.fulfillment_started_at
      && is_null r.fulfillment_completed_at
      && (status_eq r.status completed || status_eq r.status refunded)
  | fulfilled ↦
      is_null r.fulfillment_token_hash
      && is_null r.fulfillment_lease_expires_at
      && is_not_null r.fulfillment_started_at
      && is_not_null r.fulfillment_completed_at
      && (status_eq r.status completed || status_eq r.status refunded)
  | fulfillment_manual ↦
      is_null r.fulfillment_lease_expires_at
      && is_not_null r.fulfillment_started_at
      && is_null r.fulfillment_completed_at
      && (status_eq r.status completed || status_eq r.status failed || status_eq r.status refunded)
]

-- `ck_transactions_cancellation_reason`
unfoldable pub cancellation_state : Transaction → Bool
cancellation_state r =
    if status_eq r.status canceled
    then is_not_null r.cancellation_reason
    else is_null r.cancellation_reason

-- what the database admits as a row
unfoldable pub admissible : Transaction → Bool
unfolding fulfillment_state cancellation_state
admissible r = fulfillment_state r && cancellation_state r
