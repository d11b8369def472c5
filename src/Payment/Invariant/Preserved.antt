-- ===== src/Payment/Invariant/Preserved.antt =====
-- Every statement keeps the constraints of every row that it may touch.
use remnashop.Prelude.{ℕ, refl, arith}
use remnashop.Payment.Operation.{Time, Text, PaymentOperation, Db}
use remnashop.Payment.Calls.{StatementCall, statement, reclaim_claimed}
use remnashop.Payment.Dao.Reconciliation.{claim_reconciliation_stmt}
use remnashop.Payment.Calls.Rows.{after, KeepsId}
use remnashop.Payment.Invariant.{IsConsistent, Selects}

pub statement-KeepsId : (now : Time) (c : StatementCall) (db : Db) → KeepsId (statement now c db)
unfolding statement
statement-KeepsId now (reclaim_claimed i d) db = λ r. refl
statement-KeepsId now (StatementCall.delete_expired_claimed i) db = tt
statement-KeepsId now (StatementCall.delete_claimed i) db = tt
statement-KeepsId now _ db = λ r. refl

pub statement-IsConsistent :
    (now : Time) (c : StatementCall) (db : Db) (r : PaymentOperation)
    → Selects now c db r
    → IsConsistent r
    → IsConsistent (after (statement now c db) r)
unfolding statement
statement-IsConsistent now (reclaim_claimed i d) db r sel h = ground arith
statement-IsConsistent now _ db r sel h = ground arith

pub claim_reconciliation-IsConsistent :
    (now : Time) (i : ℕ) (k : Text) (d : ℕ) (r : PaymentOperation)
    → IsConsistent r
    → IsConsistent (after (claim_reconciliation_stmt now i k d) r)
unfolding claim_reconciliation_stmt
claim_reconciliation-IsConsistent now i k d r h = ground arith
