-- ===== src/Fulfillment/Settle.antt =====
-- `ProcessPayment` after the claim: the purchase has been tried, and its outcome is recorded
-- (src/application/use_cases/gateways/commands/payment.py). `SideEffect` is how `_handle_success`
-- ends: it went through, the panel was provably not reached, or anything else was raised.
use remnashop.Prelude.{
  ℕ, Time, Text, Bool, false, not, ◌&&◌, ◌||◌, Option, none, some, if◌then◌else◌, is_null, eq_col,
}
use remnashop.Prelude.Result.{Result, ok, err}
use remnashop.Fulfillment.Row.{
  refunded, ErrorCode, side_effect_failed, refund_during_completed_side_effect, result_after_lease,
  fulfilled, fulfillment_manual, Transaction, status_eq, fulfillment_eq,
}
use remnashop.Fulfillment.Statements.Events.{unproven}
use remnashop.Fulfillment.Statements.Fence.{
  complete_fulfillment, mark_fulfillment_manual_required, release_unapplied_fulfillment,
}
use remnashop.Fulfillment.Statements.Alerts.{mark_fulfillment_alerted}
use remnashop.Fulfillment.Db.{Db, get_by_payment_id, run_statement}
use remnashop.Fulfillment.Process.{
  ProcessError, not_applied, refused, unexpected, deferred, purchase_failed,
}

pub data SideEffect : Type 0 where
  applied unreachable raised : SideEffect

-- whether `_handle_success` raises `PaymentFulfillmentDeferredError`
abbrev pub is_deferred : Bool → SideEffect → Bool
is_deferred defer unreachable = defer
is_deferred defer applied = false
is_deferred defer raised = false

abbrev pub is_manual : Option Transaction → Bool
is_manual none = false
is_manual (some t) = fulfillment_eq t.fulfillment_status fulfillment_manual

-- the code under which a result is kept that `complete_fulfillment` did not record, none where the
-- row is not this claim's any more
abbrev pub late_code : Text → Option Transaction → Option ErrorCode
late_code token_hash none = none
late_code token_hash (some t) =
    if status_eq t.status refunded && unproven t && is_null t.fulfillment_completed_at
    then some refund_during_completed_side_effect
    else if eq_col t.fulfillment_token_hash token_hash
        && unproven t
        && is_null t.fulfillment_completed_at
    then some result_after_lease
    else none

abbrev pub is_proved : Option Transaction → Bool
is_proved none = false
is_proved (some t) =
    fulfillment_eq t.fulfillment_status fulfilled && not (is_null t.fulfillment_completed_at)

module _ (admits : Transaction → Bool) where
  -- `mark_fulfillment_manual_required`, and the error where it did not match
  unfoldable pub fence :
      Text → ErrorCode → ProcessError → ℕ → Db → Db → Db × Result ProcessError Unit
  unfolding run_statement mark_fulfillment_manual_required
  fence token_hash code otherwise payment_id before db =
      elim (run_statement admits (mark_fulfillment_manual_required payment_id token_hash code) db) [
        | none ↦ (before, err refused)
        | some (db', marked) ↦ if marked then (db', err otherwise) else (before, err unexpected)
      ]

  -- `except PaymentFulfillmentDeferredError`
  unfoldable pub settle_deferred : Time → Text → ℕ → Db → Db × Result ProcessError Unit
  unfolding run_statement release_unapplied_fulfillment fence
  settle_deferred now token_hash payment_id db =
      elim (run_statement admits (release_unapplied_fulfillment now payment_id token_hash) db) [
        | none ↦ (db, err refused)
        | some (db', released) ↦
            if released
            then (db', err deferred)
            else fence token_hash side_effect_failed not_applied payment_id db db'
      ]

  -- `except Exception`
  unfoldable pub settle_failed : Text → ℕ → Db → Db × Result ProcessError Unit
  unfolding run_statement mark_fulfillment_manual_required get_by_payment_id
  settle_failed token_hash payment_id db =
      elim (run_statement admits
        (mark_fulfillment_manual_required payment_id token_hash side_effect_failed) db) [
          | none ↦ (db, err refused)
          | some (db', marked) ↦
              if marked || is_manual (get_by_payment_id payment_id db')
              then (db', err purchase_failed)
              else (db, err unexpected)
        ]

  -- `_notify_ambiguous_fulfillment`
  unfoldable pub alert : Time → ℕ → Db → Db × Result ProcessError Unit
  unfolding run_statement mark_fulfillment_alerted
  alert now payment_id db =
      elim (run_statement admits (mark_fulfillment_alerted now payment_id none) db) [
        | none ↦ (db, err refused)
        | some (db', hit) ↦ (db', ok tt)
      ]

  -- a result that came after a refund or after the lease
  unfoldable pub settle_late :
      Time → Text → Option Transaction → ℕ → Db → Db → Db × Result ProcessError Unit
  unfolding run_statement mark_fulfillment_manual_required get_by_payment_id alert
  settle_late now token_hash current payment_id before db = elim (late_code token_hash current) [
    | none ↦ if is_proved current then (db, ok tt) else (before, err unexpected)
    | some code ↦
        elim (run_statement admits (mark_fulfillment_manual_required payment_id token_hash code)
          db) [
            | none ↦ (before, err refused)
            | some (db', finalized) ↦
                if not finalized || is_null (get_by_payment_id payment_id db')
                then (before, err unexpected)
                else alert now payment_id db'
          ]
  ]

  -- the purchase went through
  unfoldable pub settle_applied : Time → Text → ℕ → Db → Db × Result ProcessError Unit
  unfolding run_statement complete_fulfillment get_by_payment_id settle_late
  settle_applied now token_hash payment_id db =
      elim (run_statement admits (complete_fulfillment now payment_id token_hash) db) [
        | none ↦ (db, err refused)
        | some (db', marked) ↦
            if marked
            then (db', ok tt)
            else settle_late now token_hash (get_by_payment_id payment_id db') payment_id db db'
      ]

  -- the end of a run; `conflict` is that of the payment method
  unfoldable pub settle :
      Time → Text → ℕ → Bool → Bool → SideEffect → Db → Db × Result ProcessError Unit
  unfolding settle_deferred settle_failed settle_applied
  settle now token_hash payment_id conflict defer effect db =
      if is_deferred defer effect
      then settle_deferred now token_hash payment_id db
      else elim effect [
        | unreachable ↦ settle_failed token_hash payment_id db
        | raised ↦ settle_failed token_hash payment_id db
        | applied ↦
            let (db', result) = settle_applied now token_hash payment_id db in
            elim result [
              | err e ↦ (db', err e)
              | ok _ ↦ (db', if conflict then err not_applied else ok tt)
            ]
      ]
