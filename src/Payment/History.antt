-- ===== src/Payment/History.antt =====
-- What stays true of the row of one operation through a history of calls.
pub mod Final
pub mod Exclusive
pub mod Lifecycle
use remnashop.Prelude.{
  ℕ, ◌≡◌, refl, sym, ap, ◌∙◌, Bool, true, false, Option, none, some, List, [], ◌∷◌, ◌++◌, ◌==◌,
  arith, All, Bool-cases, Option-cases, inl, inr, if◌then◌else◌, ==→eq,
}
use remnashop.Prelude.Tables.{find_where}
use remnashop.Prelude.Tables.Laws.{find-append, find-selected}
use remnashop.Payment.Operation.{Time, Text, OperationKind, PaymentOperation, Db}
use remnashop.Payment.Dao.Defs.{rows_after, execute}
use remnashop.Payment.Dao.Claims
use remnashop.Payment.Dao.Reconciliation
use remnashop.Payment.Dao.Reconciliation.{claim_reconciliation_stmt}
use remnashop.Payment.Calls.{
  StatementCall, statement, Call, claim, claim_reconciliation, run_statement, elsewhere, step, run,
}
use remnashop.Payment.Calls.Rows.{survives, after, by_id, by_id-rows_after}
use remnashop.Payment.Invariant.{IsTable, Selects}
use remnashop.Payment.Invariant.Preserved.{statement-KeepsId}
use remnashop.Payment.Invariant.Steps.{selects, step-IsTable}

-- The row of an id is there and meets `P`.
abbrev pub RowMeets : (PaymentOperation → Type 0) → ℕ → Db → Type 0
RowMeets P id db = (r : PaymentOperation) × (by_id id db.operations ≡ some r) × P r

-- A fact about a row that no call of a kind ends: statements leave the row and the fact.
pub record IsKept (Allowed : Time × Call → Type 0) (P : PaymentOperation → Type 0) : Type 0 where
  pub survives_statement :
      (now : Time) (c : StatementCall) (db : Db) (r : PaymentOperation)
      → Allowed (now, run_statement c)
      → Selects now c db r
      → P r
      → survives (statement now c db) r ≡ true
  pub keeps_statement :
      (now : Time) (c : StatementCall) (db : Db) (r : PaymentOperation)
      → Allowed (now, run_statement c)
      → Selects now c db r
      → P r
      → P (after (statement now c db) r)
  pub keeps_claim :
      (now : Time) (i : ℕ) (k : Text) (d : ℕ) (r : PaymentOperation)
      → P r
      → P (after (claim_reconciliation_stmt now i k d) r)

module _ {Allowed : Time × Call → Type 0} {P : PaymentOperation → Type 0}
    (kept : IsKept Allowed P) where
  insert-RowMeets :
      (found : Option PaymentOperation) (row : PaymentOperation) (id : ℕ) (db : Db)
      → RowMeets P id db
      → RowMeets P id (Claims.insert_or_existing found row db).0
  unfolding Claims.insert_or_existing
  insert-RowMeets none row id db (r, there, p) =
      (r, find-append (λ x. x.id == id) db.operations (row ∷ []) r there, p)
  insert-RowMeets (some old) row id db h = h

  claim-RowMeets :
      (now : Time) (u : ℕ) (o : OperationKind) (k h p : Text) (d id : ℕ) (db : Db)
      → RowMeets P id db
      → RowMeets P id (Claims.claim now u o k h p d db).0
  unfolding Claims.claim
  claim-RowMeets now u o k h p d id db m = elim (Bool-cases (Claims.lock_active_owner u db)) [
    | inl active ↦ rw active (
        insert-RowMeets (Claims.get_by_identity u o k db)
          (Claims.claimed_row db.next_id now u o k h p d) id db m)
    | inr merged ↦ rw merged m
  ]

  claim_for_owner-RowMeets :
      (found : Option PaymentOperation) (now : Time) (i : ℕ) (k : Text) (d id : ℕ) (db : Db)
      → RowMeets P id db
      → RowMeets P id
          (Reconciliation.claim_for_owner found (claim_reconciliation_stmt now i k d) db).0
  unfolding Reconciliation.claim_for_owner
  claim_for_owner-RowMeets none now i k d id db m = m
  claim_for_owner-RowMeets (some x) now i k d id db (r, there, p) =
      elim (Bool-cases (Claims.lock_active_owner x.user_id db)) [
        | inl active ↦ rw active (
          after (claim_reconciliation_stmt now i k d) r,
          by_id-rows_after (claim_reconciliation_stmt now i k d) id db.operations r
              (unfold claim_reconciliation_stmt in λ x. refl) there
              (unfold claim_reconciliation_stmt in refl),
          kept.keeps_claim now i k d r p,
        )
        | inr merged ↦ rw merged (r, there, p)
      ]

  statement-RowMeets :
      (now : Time) (c : StatementCall) (id : ℕ) (db : Db)
      → Allowed (now, run_statement c)
      → IsTable db
      → RowMeets P id db
      → RowMeets P id (execute (statement now c db) db).0
  unfolding execute
  statement-RowMeets now c id db ok t (r, there, p) =
      let same : r.id ≡ id =
        ==→eq r.id id (find-selected (λ x. x.id == id) db.operations r there) in
      let chosen = selects now c db r t (ap (λ (i : ℕ). by_id i db.operations) same ∙ there) in
      (
        after (statement now c db) r,
        by_id-rows_after (statement now c db) id db.operations r (statement-KeepsId now c db) there
            (kept.survives_statement now c db r ok chosen p),
        kept.keeps_statement now c db r ok chosen p,
      )

  pub step-RowMeets :
      (now : Time) (c : Call) (id : ℕ) (db : Db)
      → Allowed (now, c)
      → IsTable db
      → RowMeets P id db
      → RowMeets P id (step now c db).0
  unfolding step Reconciliation.claim_reconciliation
  step-RowMeets now (claim u o k h p d) id db ok t m = claim-RowMeets now u o k h p d id db m
  step-RowMeets now (claim_reconciliation i k d) id db ok t m =
      claim_for_owner-RowMeets (Claims.get_by_id i db) now i k d id db m
  step-RowMeets now (run_statement c) id db ok t m = statement-RowMeets now c id db ok t m
  step-RowMeets now (elsewhere transactions owners) id db ok t m = m

  -- The fact holds after every history of allowed calls.
  pub run-RowMeets :
      (history : List (Time × Call)) (id : ℕ) (db : Db)
      → All Allowed history
      → IsTable db
      → RowMeets P id db
      → RowMeets P id (run history db)
  unfolding run
  run-RowMeets [] id db ok t m = m
  run-RowMeets ((now, c) ∷ rest) id db ok t m =
      run-RowMeets rest id (step now c db).0 ok.1 (step-IsTable now c db t)
        (step-RowMeets now c id db ok.0 t m)
