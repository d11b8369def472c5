-- ===== src/Fulfillment/Statements/Fence.antt =====
-- The UPDATEs that end a claim of fulfilment (src/infrastructure/database/dao/transaction.py).
use remnashop.Prelude.{
  ℕ, Time, Text, Bool, ◌&&◌, ◌||◌, none, some, List, ◌==◌, ltb, eq_col, le_col, gt_col, take,
}
use remnashop.Prelude.Tables.{select_where, order_by}
use remnashop.Fulfillment.Row.{
  completed, refunded, ErrorCode, panel_unreachable, lease_expired, lease_expired_during_merge,
  not_started, fulfilling, fulfilled, fulfillment_manual, status_eq, fulfillment_eq, Transaction,
}
use remnashop.Fulfillment.Statements.{Statement, nulls_last, same_col, is_in}
use remnashop.Fulfillment.Statements.Events.{unproven}

-- a claim that its holder may still complete or release
abbrev pub held_by : Text → Time → Transaction → Bool
held_by token_hash now r =
    status_eq r.status completed
    && fulfillment_eq r.fulfillment_status fulfilling
    && eq_col r.fulfillment_token_hash token_hash
    && gt_col r.fulfillment_lease_expires_at now

unfoldable pub complete_fulfillment : Time → ℕ → Text → Statement
complete_fulfillment now payment_id token_hash = record {
  test = λ r. r.payment_id == payment_id && held_by token_hash now r;
  set = λ r. record r {
    fulfillment_status = fulfilled;
    fulfillment_token_hash = none;
    fulfillment_lease_expires_at = none;
    fulfillment_completed_at = some now;
    fulfillment_last_error = none;
  };
}

abbrev pub completed_or_refunded : Transaction → Bool
completed_or_refunded r = status_eq r.status completed || status_eq r.status refunded

unfoldable pub mark_fulfillment_manual_required : ℕ → Text → ErrorCode → Statement
mark_fulfillment_manual_required payment_id token_hash error_code = record {
  test = λ r.
      r.payment_id == payment_id
      && completed_or_refunded r
      && unproven r
      && eq_col r.fulfillment_token_hash token_hash;
  set = λ r. record r {
    fulfillment_status = fulfillment_manual;
    fulfillment_lease_expires_at = none;
    fulfillment_last_error = some error_code;
  };
}

unfoldable pub release_unapplied_fulfillment : Time → ℕ → Text → Statement
release_unapplied_fulfillment now payment_id token_hash = record {
  test = λ r. r.payment_id == payment_id && held_by token_hash now r;
  set = λ r. record r {
    fulfillment_status = not_started;
    fulfillment_token_hash = none;
    fulfillment_started_at = none;
    fulfillment_lease_expires_at = none;
    fulfillment_last_error = some panel_unreachable;
  };
}

abbrev pub has_expired : Time → Transaction → Bool
has_expired now r =
    fulfillment_eq r.fulfillment_status fulfilling && le_col r.fulfillment_lease_expires_at now

abbrev pub expired_row : Transaction → Transaction
expired_row r = record r {
  fulfillment_status = fulfillment_manual;
  fulfillment_lease_expires_at = none;
  fulfillment_last_error = some lease_expired;
}

unfoldable pub expire_fulfillment : Time → ℕ → Statement
expire_fulfillment now payment_id = record {
  test = λ r. r.payment_id == payment_id && completed_or_refunded r && has_expired now r;
  set = expired_row;
}

-- the ids that the subquery of `expire_fulfillments` selects; `free` says which rows no other
-- transaction has locked
unfoldable pub expired_candidates : (ℕ → Bool) → Time → ℕ → List Transaction → List Transaction
expired_candidates free now limit rows = take limit (
    order_by
      (λ r s.
        nulls_last r.fulfillment_lease_expires_at s.fulfillment_lease_expires_at
        || same_col r.fulfillment_lease_expires_at s.fulfillment_lease_expires_at && ltb r.id s.id)
      (select_where (λ r. free r.id && completed_or_refunded r && has_expired now r) rows))

unfoldable pub expire_fulfillments : (ℕ → Bool) → Time → ℕ → List Transaction → Statement
unfolding expired_candidates
expire_fulfillments free now limit rows =
    let candidates = expired_candidates free now limit rows in
    record { test = λ r. is_in r.id candidates && has_expired now r; set = expired_row }

-- the fulfilments that a merge of two users expires
-- (src/infrastructure/database/dao/user_merge.py)
unfoldable pub expire_merged_fulfillments : Time → ℕ → ℕ → Statement
expire_merged_fulfillments now source_user_id target_user_id = record {
  test = λ r. (r.user_id == source_user_id || r.user_id == target_user_id) && has_expired now r;
  set = λ r. record r {
    fulfillment_status = fulfillment_manual;
    fulfillment_lease_expires_at = none;
    fulfillment_last_error = some lease_expired_during_merge;
  };
}
