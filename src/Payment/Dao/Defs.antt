-- ===== src/Payment/Dao/Defs.antt =====
-- One conditional statement on `payment_operations` and its run
-- (src/infrastructure/database/dao/payment_operation.py).
use remnashop.Prelude.{ℕ, Bool, List, ◌==◌}
use remnashop.Prelude.Tables.{update_where, delete_where}
use remnashop.Payment.Operation.{PaymentOperation, Db}

pub data Statement : Type 0 where
  update : (PaymentOperation → Bool) → (PaymentOperation → PaymentOperation) → Statement
  delete : (PaymentOperation → Bool) → Statement

unfoldable pub rows_after : Statement → List PaymentOperation → List PaymentOperation × ℕ
rows_after (update test set) rows = update_where test set rows
rows_after (delete test) rows = delete_where test rows

-- `cast(int, result.rowcount) == 1`, beside the database after the statement
unfoldable pub execute : Statement → Db → Db × Bool
unfolding rows_after
execute s db =
    let (rows, n) = rows_after s db.operations in (record db { operations = rows }, n == 1)
