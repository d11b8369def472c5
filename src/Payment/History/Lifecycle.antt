-- ===== src/Payment/History/Lifecycle.antt =====
-- The statuses that an operation goes through, as a diagram.
use remnashop.Prelude.{ℕ, ◌≡◌, arith, true, false, Bool, List, sym}
use mathlib.Core.Path.{subst}
use remnashop.Payment.Operation.{
  Time, Status, claimed, processing, succeeded, unknown, manual_required, status_eq,
  PaymentOperation, Db,
}
use remnashop.Payment.Dao.Reconciliation.{claim_reconciliation_stmt}
use remnashop.Payment.Calls.{StatementCall, statement, reclaim_claimed, Call, run}
use remnashop.Payment.Calls.Rows.{survives, after}
use remnashop.Payment.Invariant.{IsTable, Selects}
use remnashop.Payment.History.{RowMeets, IsKept, run-RowMeets}
use remnashop.Payment.History.Final.{Anything, All-Anything}

infix 40 ◌⟶◌ ◌⟶*◌
-- the only changes of status
pub data ◌⟶◌ : Status → Status → Type 0 where
  begin : claimed ⟶ processing
  finish : processing ⟶ succeeded
  lose : processing ⟶ unknown
  recover : unknown ⟶ succeeded
  escalate : unknown ⟶ manual_required
  settle : manual_required ⟶ succeeded

pub data ◌⟶*◌ (s : Status) : Status → Type 0 where
  here : s ⟶* s
  next : {t u : Status} → s ⟶* t → t ⟶ u → s ⟶* u

abbrev may_follow : Status → Status → Bool
may_follow claimed processing = true
may_follow processing succeeded = true
may_follow processing unknown = true
may_follow unknown succeeded = true
may_follow unknown manual_required = true
may_follow manual_required succeeded = true
may_follow s t = status_eq s t

statement-may_follow :
    (now : Time) (c : StatementCall) (db : Db) (r : PaymentOperation)
    → Selects now c db r
    → may_follow r.status (after (statement now c db) r).status ≡ true
unfolding statement
statement-may_follow now (reclaim_claimed i d) db r sel = ground arith
statement-may_follow now _ db r sel = ground arith

extend : {s t u : Status} → s ⟶* t → may_follow t u ≡ true → s ⟶* u
extend {s} {t} {u} path h = go t u path h
  where
    go : (t u : Status) → s ⟶* t → may_follow t u ≡ true → s ⟶* u
    go claimed claimed path h = path
    go claimed processing path h = next path begin
    go processing processing path h = path
    go processing succeeded path h = next path finish
    go processing unknown path h = next path lose
    go succeeded succeeded path h = path
    go unknown unknown path h = path
    go unknown succeeded path h = next path recover
    go unknown manual_required path h = next path escalate
    go manual_required manual_required path h = path
    go manual_required succeeded path h = next path settle
    go _ _ path h = absurd (ground arith)

abbrev pub PastClaim : Status → PaymentOperation → Type 0
PastClaim s r = (status_eq r.status claimed ≡ false) × (s ⟶* r.status)

past-kept :
    (now : Time) (c : StatementCall) (db : Db) (r : PaymentOperation)
    → Selects now c db r
    → status_eq r.status claimed ≡ false
    → (survives (statement now c db) r ≡ true)
      × (status_eq (after (statement now c db) r).status claimed ≡ false)
unfolding statement
past-kept now (reclaim_claimed i d) db r sel h = ground arith
past-kept now _ db r sel h = ground arith

past-IsKept : (s : Status) → IsKept Anything (PastClaim s)
unfolding claim_reconciliation_stmt
past-IsKept s = record {
  survives_statement = λ now c db r ok sel h. (past-kept now c db r sel h.0).0;
  keeps_statement = λ now c db r ok sel h.
      ((past-kept now c db r sel h.0).1, extend h.1 (statement-may_follow now c db r sel));
  keeps_claim = λ now i k d r h. (ground arith, extend h.1 (ground arith));
}

-- An operation that has left CLAIMED is never deleted, and in every history of calls its status
-- follows the diagram from where it stood, and is not CLAIMED again.
pub history_follows_diagram :
    (s : Status) (history : List (Time × Call)) (id : ℕ) (db : Db)
    → IsTable db
    → RowMeets (λ r. (status_eq r.status claimed ≡ false) × (r.status ≡ s)) id db
    → RowMeets (λ r. (status_eq r.status claimed ≡ false) × (s ⟶* r.status)) id (run history db)
history_follows_diagram s history id db table (r, there, (left, same)) =
    run-RowMeets (past-IsKept s) history id db (All-Anything history) table
      (r, there, (left, subst (λ x. s ⟶* x) (sym same) here))
