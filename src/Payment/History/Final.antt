-- ===== src/Payment/History/Final.antt =====
-- What is settled stays settled: a success, a linked transaction, and the row itself once its
-- payment has begun.
use remnashop.Prelude.{ℕ, ◌≡◌, arith, true, false, some, List, [], ◌∷◌, All}
use remnashop.Payment.Operation.{Time, Json, claimed, succeeded, status_eq, PaymentOperation, Db}
use remnashop.Payment.Dao.Reconciliation.{claim_reconciliation_stmt}
use remnashop.Payment.Calls.{StatementCall, statement, reclaim_claimed, Call, run}
use remnashop.Payment.Calls.Rows.{survives, after}
use remnashop.Payment.Invariant.{IsTable, Selects}
use remnashop.Payment.History.{RowMeets, IsKept, run-RowMeets}

abbrev pub Anything : Time × Call → Type 0
Anything _ = Unit

pub All-Anything : (history : List (Time × Call)) → All Anything history
All-Anything [] = tt
All-Anything (c ∷ rest) = (tt, All-Anything rest)

-- the row of a payment that succeeded with this response and transaction
abbrev pub SucceededWith : Json → ℕ → PaymentOperation → Type 0
SucceededWith response transaction r =
    (r.status ≡ succeeded) × (r.response ≡ some response) × (r.transaction_id ≡ some transaction)

succeeded-kept :
    (x : Json) (t : ℕ) (now : Time) (c : StatementCall) (db : Db) (r : PaymentOperation)
    → Selects now c db r
    → SucceededWith x t r
    → (survives (statement now c db) r ≡ true) × SucceededWith x t (after (statement now c db) r)
unfolding statement
succeeded-kept x t now (reclaim_claimed i d) db r sel h = ground arith
succeeded-kept x t now _ db r sel h = ground arith

succeeded-IsKept : (x : Json) (t : ℕ) → IsKept Anything (SucceededWith x t)
unfolding claim_reconciliation_stmt
succeeded-IsKept x t = record {
  survives_statement = λ now c db r ok sel h. (succeeded-kept x t now c db r sel h).0;
  keeps_statement = λ now c db r ok sel h. (succeeded-kept x t now c db r sel h).1;
  keeps_claim = λ now i k d r h. ground arith;
}

-- Once an operation has succeeded, every later history of calls leaves its row with the same
-- response and the same transaction: what a replay answers never changes.
pub succeeded_is_final :
    (x : Json) (t : ℕ) (history : List (Time × Call)) (id : ℕ) (db : Db)
    → IsTable db
    → RowMeets (SucceededWith x t) id db
    → RowMeets (SucceededWith x t) id (run history db)
succeeded_is_final x t history id db table m =
    run-RowMeets (succeeded-IsKept x t) history id db (All-Anything history) table m

-- a row that has left CLAIMED, with its transaction
abbrev pub LinkedTo : ℕ → PaymentOperation → Type 0
LinkedTo t r = (status_eq r.status claimed ≡ false) × (r.transaction_id ≡ some t)

linked-kept :
    (t : ℕ) (now : Time) (c : StatementCall) (db : Db) (r : PaymentOperation)
    → Selects now c db r
    → LinkedTo t r
    → (survives (statement now c db) r ≡ true) × LinkedTo t (after (statement now c db) r)
unfolding statement
linked-kept t now (reclaim_claimed i d) db r sel h = ground arith
linked-kept t now _ db r sel h = ground arith

linked-IsKept : (t : ℕ) → IsKept Anything (LinkedTo t)
unfolding claim_reconciliation_stmt
linked-IsKept t = record {
  survives_statement = λ now c db r ok sel h. (linked-kept t now c db r sel h).0;
  keeps_statement = λ now c db r ok sel h. (linked-kept t now c db r sel h).1;
  keeps_claim = λ now i k d r h. ground arith;
}

-- A transaction that is linked to an operation past CLAIMED is never replaced by another one, in
-- any history of calls, and the row is never deleted.
pub link_is_final :
    (t : ℕ) (history : List (Time × Call)) (id : ℕ) (db : Db)
    → IsTable db
    → RowMeets (LinkedTo t) id db
    → RowMeets (LinkedTo t) id (run history db)
link_is_final t history id db table m =
    run-RowMeets (linked-IsKept t) history id db (All-Anything history) table m
