-- ===== src/Fulfillment/Statements/Events.antt =====
-- The UPDATEs that an event of a provider makes, and `cancel_old`
-- (src/infrastructure/database/dao/transaction.py).
use remnashop.Prelude.{
  ℕ, ◌+◌, ◌*◌, Time, Text, Bool, ◌&&◌, ◌||◌, none, some, ◌==◌, ltb, if◌then◌else◌, is_null,
  is_not_null, eq_col,
}
use remnashop.Fulfillment.Row.{
  pending, completed, canceled, refunded, provider, local_timeout,
  refund_during_unproven_fulfillment, not_started, fulfilling, fulfilled, fulfillment_manual,
  status_eq, fulfillment_eq, is_local_timeout, is_panel_unreachable, is_legacy, Transaction,
}
use remnashop.Fulfillment.Statements.{Statement}

-- PLATEGA, one of the names of gateways
abbrev pub platega : Text
platega = 7

unfoldable pub set_payment_method_if_absent_or_equal : ℕ → Text → Statement
set_payment_method_if_absent_or_equal payment_id payment_method = record {
  test = λ r.
      r.payment_id == payment_id
      && r.gateway_type == platega
      && (is_null r.payment_method || eq_col r.payment_method payment_method);
  set = λ r. record r {
    payment_method = if is_null r.payment_method then some payment_method else r.payment_method;
  };
}

-- what `transition_refunded` may refund: unpaid, proved unapplied, or fulfilled
abbrev pub refundable : Transaction → Bool
refundable r =
    (status_eq r.status pending || status_eq r.status canceled)
      && fulfillment_eq r.fulfillment_status not_started
    || status_eq r.status completed
      && fulfillment_eq r.fulfillment_status not_started
      && is_panel_unreachable r.fulfillment_last_error
    || status_eq r.status completed
      && fulfillment_eq r.fulfillment_status fulfilled
      && is_not_null r.fulfillment_completed_at

unfoldable pub transition_refunded : ℕ → Statement
transition_refunded payment_id = record {
  test = λ r. r.payment_id == payment_id && refundable r;
  set = λ r. record r { status = refunded; cancellation_reason = none };
}

unfoldable pub cancel_by_provider : ℕ → Statement
cancel_by_provider payment_id = record {
  test = λ r.
      r.payment_id == payment_id
      && (status_eq r.status pending || status_eq r.status canceled)
      && fulfillment_eq r.fulfillment_status not_started;
  set = λ r. record r { status = canceled; cancellation_reason = some provider };
}

-- what `claim_fulfillment` may claim
abbrev pub claimable : Transaction → Bool
claimable r =
    (status_eq r.status pending
      || status_eq r.status canceled && is_local_timeout r.cancellation_reason
      || status_eq r.status completed && is_panel_unreachable r.fulfillment_last_error)
    && fulfillment_eq r.fulfillment_status not_started

unfoldable pub claim_fulfillment : Time → ℕ → Text → ℕ → Statement
claim_fulfillment now payment_id token_hash lease_for = record {
  test = λ r. r.payment_id == payment_id && claimable r;
  set = λ r. record r {
    status = completed;
    cancellation_reason = none;
    fulfillment_status = fulfilling;
    fulfillment_token_hash = some token_hash;
    fulfillment_started_at = some now;
    fulfillment_lease_expires_at = some (now + lease_for);
    fulfillment_completed_at = none;
    fulfillment_last_error = none;
  };
}

-- `exact_legacy_referral_source_fulfillment`
-- (src/infrastructure/database/referral_reward_source.py)
abbrev pub exact_legacy_referral_source_fulfillment : Transaction → Bool
exact_legacy_referral_source_fulfillment r =
    fulfillment_eq r.fulfillment_status fulfillment_manual
    && is_null r.fulfillment_completed_at
    && is_legacy r.fulfillment_last_error
    && is_not_null r.fulfillment_started_at
    && is_null r.fulfillment_token_hash
    && is_null r.fulfillment_lease_expires_at

abbrev pub unproven : Transaction → Bool
unproven r =
    fulfillment_eq r.fulfillment_status fulfilling
    || fulfillment_eq r.fulfillment_status fulfillment_manual

unfoldable pub mark_refund_manual_required : ℕ → Statement
mark_refund_manual_required payment_id = record {
  test = λ r. r.payment_id == payment_id && status_eq r.status completed && unproven r;
  set = λ r. record r {
    status = refunded;
    fulfillment_last_error =
        if exact_legacy_referral_source_fulfillment r
        then r.fulfillment_last_error
        else some refund_during_unproven_fulfillment;
  };
}

-- `cancel_old`, of minutes in microseconds
unfoldable pub cancel_old : Time → ℕ → Statement
cancel_old now minutes = record {
  test = λ r. status_eq r.status pending && ltb (r.created_at + minutes * 60000000) now;
  set = λ r. record r { status = canceled; cancellation_reason = some local_timeout };
}
