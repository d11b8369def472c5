-- ===== src/Payment/Invariant/Steps.antt =====
-- Every call, in any history, keeps the table's keys and every CHECK constraint.
use remnashop.Prelude.{
  ℕ, suc, ◌<◌, ◌≡◌, refl, Option, none, some, List, [], ◌∷◌, ◌++◌, arith, All, Bool-cases, inl, inr,
}
use remnashop.Prelude.Tables.{find_where}
use remnashop.Prelude.Tables.Laws.{All-both, All-map, All-append}
use remnashop.Payment.Operation.{Time, Text, OperationKind, PaymentOperation, Db}
use remnashop.Payment.Dao.Defs.{Statement, rows_after, execute}
use remnashop.Payment.Dao.Claims
use remnashop.Payment.Dao.Reconciliation
use remnashop.Payment.Keys.{Keyed-found, Keyed-rows_after, Keyed-append}
use remnashop.Payment.Calls.{
  StatementCall, reclaim_claimed, expire_reconciliations, statement, Call, claim,
  claim_reconciliation, run_statement, elsewhere, step, run,
}
use remnashop.Payment.Calls.Rows.{after, KeepsId, by_id, All-rows_after}
use remnashop.Payment.Invariant.{IsConsistent, IsTable, Selects}
use remnashop.Payment.Invariant.Preserved.{
  statement-KeepsId, statement-IsConsistent, claim_reconciliation-IsConsistent,
}
use remnashop.Payment.Invariant.Selected.{expired_candidates_sound}

pub selects :
    (now : Time) (c : StatementCall) (db : Db) (r : PaymentOperation)
    → IsTable db
    → by_id r.id db.operations ≡ some r
    → Selects now c db r
selects now (expire_reconciliations free n) db r t found =
    expired_candidates_sound free now n db r (Keyed-found db.operations t.keyed) found
selects now (reclaim_claimed i d) db r t found = tt
selects now _ db r t found = tt

after-id : (s : Statement) (r : PaymentOperation) → KeepsId s → (after s r).id ≡ r.id
after-id (Statement.update test set) r keeps = ground (arith, keeps r)
after-id (Statement.delete test) r keeps = refl

-- A statement that keeps ids, and the constraints of the rows it meets, keeps the table.
rows_after-IsTable :
    (s : Statement) (db : Db)
    → KeepsId s
    → ((r : PaymentOperation)
        → by_id r.id db.operations ≡ some r
        → IsConsistent r
        → IsConsistent (after s r))
    → IsTable db
    → IsTable (record db { operations = (rows_after s db.operations).0 })
rows_after-IsTable s db keeps sound t = record {
  keyed = Keyed-rows_after s db.operations keeps t.keyed;
  fresh = All-rows_after _ _ s (λ r alive lt. rw (after-id s r keeps) lt) db.operations t.fresh;
  consistent =
      All-rows_after _ _ s (λ r alive both. sound r both.0 both.1) db.operations
        (All-both _ _ db.operations (Keyed-found db.operations t.keyed) t.consistent);
}

pub execute-IsTable :
    (now : Time) (c : StatementCall) (db : Db)
    → IsTable db
    → IsTable (execute (statement now c db) db).0
unfolding execute
execute-IsTable now c db t =
    rows_after-IsTable (statement now c db) db (statement-KeepsId now c db)
      (λ r found h. statement-IsConsistent now c db r (selects now c db r t found) h) t

not_yet_used :
    (n : ℕ) (rows : List PaymentOperation) → All (λ r. r.id < n) rows → by_id n rows ≡ none
unfolding find_where
not_yet_used n [] h = refl
not_yet_used n (r ∷ rows) h = ground (arith, not_yet_used n rows h.1)

-- The row that `claim` inserts takes the next id of the sequence.
insert-IsTable :
    (row : PaymentOperation) (db : Db)
    → row.id ≡ db.next_id
    → IsConsistent row
    → IsTable db
    → IsTable (record db { operations = db.operations ++ row ∷ []; next_id = suc db.next_id })
unfolding find_where
insert-IsTable row db new ok t = record {
  keyed =
      Keyed-append db.operations row (rw new (not_yet_used db.next_id db.operations t.fresh))
        t.keyed;
  fresh =
      All-append _ db.operations (row ∷ [])
        (All-map _ _ (λ r lt. omega arith) db.operations t.fresh) (omega arith, tt);
  consistent = All-append _ db.operations (row ∷ []) t.consistent (ok, tt);
}

pub skip_id-IsTable : (db : Db) → IsTable db → IsTable (record db { next_id = suc db.next_id })
skip_id-IsTable db t = record {
  keyed = t.keyed;
  fresh = All-map _ _ (λ r lt. omega arith) db.operations t.fresh;
  consistent = t.consistent;
}

insert_or_existing-IsTable :
    (found : Option PaymentOperation) (row : PaymentOperation) (db : Db)
    → row.id ≡ db.next_id
    → IsConsistent row
    → IsTable db
    → IsTable (Claims.insert_or_existing found row db).0
unfolding Claims.insert_or_existing
insert_or_existing-IsTable none row db new ok t = insert-IsTable row db new ok t
insert_or_existing-IsTable (some r) row db new ok t = skip_id-IsTable db t

pub claim-IsTable :
    (now : Time) (u : ℕ) (o : OperationKind) (k h p : Text) (d : ℕ) (db : Db)
    → IsTable db
    → IsTable (Claims.claim now u o k h p d db).0
unfolding Claims.claim
claim-IsTable now u o k h p d db t = elim (Bool-cases (Claims.lock_active_owner u db)) [
  | inl active ↦ rw active (
      insert_or_existing-IsTable (Claims.get_by_identity u o k db)
        (Claims.claimed_row db.next_id now u o k h p d) db refl (ground arith) t)
  | inr merged ↦ rw merged t
]

claim_for_owner-IsTable :
    (found : Option PaymentOperation) (now : Time) (i : ℕ) (k : Text) (d : ℕ) (db : Db)
    → IsTable db
    → IsTable
        (Reconciliation.claim_for_owner found
          (Reconciliation.claim_reconciliation_stmt now i k d)
          db).0
unfolding Reconciliation.claim_for_owner
claim_for_owner-IsTable none now i k d db t = t
claim_for_owner-IsTable (some r) now i k d db t =
    elim (Bool-cases (Claims.lock_active_owner r.user_id db)) [
      | inl active ↦ rw active (
          rows_after-IsTable (Reconciliation.claim_reconciliation_stmt now i k d) db
            (unfold Reconciliation.claim_reconciliation_stmt in λ x. refl)
            (λ x found ok. claim_reconciliation-IsConsistent now i k d x ok) t)
      | inr merged ↦ rw merged t
    ]

-- Every call of the interface keeps the keys and the constraints of the table.
pub step-IsTable : (now : Time) (c : Call) (db : Db) → IsTable db → IsTable (step now c db).0
unfolding step Reconciliation.claim_reconciliation
step-IsTable now (claim u o k h p d) db t = claim-IsTable now u o k h p d db t
step-IsTable now (claim_reconciliation i k d) db t =
    claim_for_owner-IsTable (Claims.get_by_id i db) now i k d db t
step-IsTable now (run_statement c) db t = execute-IsTable now c db t
step-IsTable now (elsewhere transactions owners) db t = record {
  keyed = t.keyed;
  fresh = t.fresh;
  consistent = t.consistent;
}

-- From a table that meets its keys and CHECK constraints, every history of calls, in whatever
-- order and at whatever instants, leads to one that does: no statement of the interface can be
-- refused by `ck_payment_operations_lease`, `ck_payment_operations_reconcile_lease` or
-- `ck_payment_operations_succeeded_transaction`.
pub run-IsTable : (history : List (Time × Call)) (db : Db) → IsTable db → IsTable (run history db)
unfolding run
run-IsTable [] db t = t
run-IsTable ((now, c) ∷ rest) db t = run-IsTable rest (step now c db).0 (step-IsTable now c db t)
