-- ===== src/Fulfillment/Statements/Alerts.antt =====
-- The UPDATEs of the alerts for fulfilments that need a person
-- (src/infrastructure/database/dao/transaction.py).
use remnashop.Prelude.{
  ℕ, ◌+◌, Time, Text, Bool, ◌&&◌, ◌||◌, Option, none, some, List, ◌==◌, ltb, is_null, eq_col,
  le_col, take,
}
use remnashop.Prelude.Tables.{select_where, order_by}
use remnashop.Fulfillment.Row.{fulfillment_manual, fulfillment_eq, Transaction}
use remnashop.Fulfillment.Statements.{Statement, nulls_first, nulls_last, same_col, is_in}

-- whether an alert may be claimed
abbrev alert_due : Time → Transaction → Bool
alert_due now r =
    fulfillment_eq r.fulfillment_status fulfillment_manual
    && is_null r.fulfillment_alerted_at
    && (is_null r.fulfillment_alert_next_attempt_at
        || le_col r.fulfillment_alert_next_attempt_at now)
    && (is_null r.fulfillment_alert_token_hash || le_col r.fulfillment_alert_lease_expires_at now)

unfoldable pub alert_candidates : (ℕ → Bool) → Time → ℕ → List Transaction → List Transaction
alert_candidates free now limit rows = take limit (
    order_by
      (λ r s.
        nulls_first r.fulfillment_alert_next_attempt_at s.fulfillment_alert_next_attempt_at
        || same_col r.fulfillment_alert_next_attempt_at s.fulfillment_alert_next_attempt_at
          && (nulls_last r.fulfillment_started_at s.fulfillment_started_at
              || same_col r.fulfillment_started_at s.fulfillment_started_at && ltb r.id s.id))
      (select_where (λ r. free r.id && alert_due now r) rows))

unfoldable pub claim_manual_fulfillment_alerts :
    (ℕ → Bool) → Time → Text → ℕ → ℕ → List Transaction → Statement
unfolding alert_candidates
claim_manual_fulfillment_alerts free now token_hash lease_for limit rows =
    let candidates = alert_candidates free now limit rows in
    record {
      test = λ r. is_in r.id candidates;
      set = λ r. record r {
        fulfillment_alert_token_hash = some token_hash;
        fulfillment_alert_lease_expires_at = some (now + lease_for);
        fulfillment_alert_attempt_count = r.fulfillment_alert_attempt_count + 1;
      };
    }

abbrev token_is : Option Text → Transaction → Bool
token_is none r = is_null r.fulfillment_alert_token_hash
token_is (some token_hash) r = eq_col r.fulfillment_alert_token_hash token_hash

unfoldable pub mark_fulfillment_alerted : Time → ℕ → Option Text → Statement
mark_fulfillment_alerted now payment_id token_hash = record {
  test = λ r.
      r.payment_id == payment_id
      && fulfillment_eq r.fulfillment_status fulfillment_manual
      && is_null r.fulfillment_alerted_at
      && token_is token_hash r;
  set = λ r. record r {
    fulfillment_alerted_at = some now;
    fulfillment_alert_token_hash = none;
    fulfillment_alert_lease_expires_at = none;
    fulfillment_alert_next_attempt_at = none;
  };
}

unfoldable pub release_fulfillment_alert : Time → ℕ → Text → ℕ → Statement
release_fulfillment_alert now payment_id token_hash retry_after = record {
  test = λ r.
      r.payment_id == payment_id
      && is_null r.fulfillment_alerted_at
      && eq_col r.fulfillment_alert_token_hash token_hash;
  set = λ r. record r {
    fulfillment_alert_token_hash = none;
    fulfillment_alert_lease_expires_at = none;
    fulfillment_alert_next_attempt_at = some (now + retry_after);
  };
}
