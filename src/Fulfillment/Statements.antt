-- ===== src/Fulfillment/Statements.antt =====
-- One conditional UPDATE of `transactions` and its run under the CHECK constraints
-- (src/infrastructure/database/dao/transaction.py).
pub mod Events
pub mod Fence
pub mod Alerts
pub mod Laws
use remnashop.Prelude.{
  ℕ, ◌+◌, ◌-◌, ◌*◌, Time, Text, Bool, true, false, not, ◌&&◌, ◌||◌, Option, none, some, List, [],
  ◌∷◌, ◌==◌, ltb, leb, if◌then◌else◌, is_null, is_not_null, eq_col, le_col, gt_col, take,
}
use remnashop.Prelude.Result.{Result, ok, err}
use remnashop.Prelude.Tables.{update_where, select_where, count_where, order_by, find_where}
use remnashop.Fulfillment.Row.{
  Status, pending, completed, canceled, refunded, failed, Cancellation, provider, local_timeout,
  ErrorCode, panel_unreachable, lease_expired, refund_during_unproven_fulfillment,
  FulfillmentStatus, not_started, fulfilling, fulfilled, fulfillment_manual, status_eq,
  fulfillment_eq, is_local_timeout, is_panel_unreachable, is_legacy, Transaction,
}

-- `update(Transaction).where(test).values(set)`
pub record Statement : Type 0 where
  pub test : Transaction → Bool
  pub set : Transaction → Transaction

-- The run of a statement: the rows after it and `rowcount`, or none where the database refuses a row
-- by a CHECK constraint (`IntegrityError`), which ends the transaction.
unfoldable pub execute :
    (Transaction → Bool) → Statement → List Transaction → Option (List Transaction × ℕ)
execute admits s rows =
    if count_where (λ r. s.test r && not (admits (s.set r))) rows == 0
    then some (update_where s.test s.set rows)
    else none

-- ascending, NULL first
abbrev pub nulls_first : Option ℕ → Option ℕ → Bool
nulls_first none none = false
nulls_first none (some b) = true
nulls_first (some a) none = false
nulls_first (some a) (some b) = ltb a b

-- ascending, NULL last
abbrev pub nulls_last : Option ℕ → Option ℕ → Bool
nulls_last none b = false
nulls_last (some a) none = true
nulls_last (some a) (some b) = ltb a b

abbrev pub same_col : Option ℕ → Option ℕ → Bool
same_col none none = true
same_col none (some b) = false
same_col (some a) b = eq_col b a

abbrev pub is_in : ℕ → List Transaction → Bool
is_in id rows = is_not_null (find_where (λ r. r.id == id) rows)
