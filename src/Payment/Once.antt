-- ===== src/Payment/Once.antt =====
-- A payment is begun at most once: of all calls of `mark_processing` for one id, in any history,
-- one is answered with success.
use remnashop.Prelude.{
  ℕ, ◌+◌, ◌≤◌, ◌<◌, ◌≡◌, refl, Bool, true, false, ◌&&◌, Option, none, some, List, [], ◌∷◌, ◌++◌,
  ◌==◌, leb, if◌then◌else◌, arith, All, Bool-cases, inl, inr, ==→eq, ==-refl,
}
use mathlib.Core.Path.{subst}
use remnashop.Prelude.Tables.{count_where, update_where, delete_where}
use remnashop.Payment.Operation.{
  Time, Text, Json, OperationKind, RecoveryMode, claimed, processing, status_eq, PaymentOperation,
  Db,
}
use mathlib.Core.Option
use remnashop.Payment.Dao.Defs.{Statement, update, delete, rows_after, execute}
use remnashop.Payment.Dao.Claims
use remnashop.Payment.Dao.Reconciliation
use remnashop.Payment.Dao.Reconciliation.{claim_reconciliation_stmt}
use remnashop.Payment.Calls.{
  StatementCall, statement, reclaim_claimed, mark_processing, Call, claim, claim_reconciliation,
  run_statement, elsewhere, step,
}
use remnashop.Payment.Calls.Rows.{after}
use remnashop.Payment.Keys.{count-le_one}
use remnashop.Payment.Invariant.{IsTable}

abbrev claimable : ℕ → PaymentOperation → Bool
claimable id r = r.id == id && status_eq r.status claimed

count-rows_after :
    (key : PaymentOperation → Bool) (s : Statement)
    → ((r : PaymentOperation) → key (after s r) ≡ true → key r ≡ true)
    → (rows : List PaymentOperation) → count_where key (rows_after s rows).0 ≤ count_where key rows
unfolding count_where rows_after update_where delete_where
count-rows_after key (update test set) f [] = omega arith
count-rows_after key (update test set) f (r ∷ rows) =
    let rest = count-rows_after key (update test set) f rows in ground (arith, f r)
count-rows_after key (delete test) f [] = omega arith
count-rows_after key (delete test) f (r ∷ rows) =
    let rest = count-rows_after key (delete test) f rows in ground arith

-- An update of exactly the rows that a condition selects, after which it selects none of them.
count-consumed :
    (key : PaymentOperation → Bool) (set : PaymentOperation → PaymentOperation)
    → ((r : PaymentOperation) → key (set r) ≡ false)
    → (rows : List PaymentOperation)
    → count_where key (update_where key set rows).0 + (update_where key set rows).1
      ≡ count_where key rows
unfolding count_where update_where
count-consumed key set f [] = refl
count-consumed key set f (r ∷ rows) = ground (arith, f r, count-consumed key set f rows)

count-append :
    (key : PaymentOperation → Bool) (rows : List PaymentOperation) (r : PaymentOperation)
    → count_where key (rows ++ r ∷ []) ≡ count_where key rows + (if key r then 1 else 0)
unfolding count_where
count-append key [] r = ground arith
count-append key (x ∷ rows) r = ground (arith, count-append key rows r)

-- what is left of the one chance of an id: a claimed row, or an id not given out yet
chances : ℕ → Db → ℕ
chances id db = count_where (claimable id) db.operations + (if leb db.next_id id then 1 else 0)

abbrev pub begins : ℕ → Call → Bool
begins id (run_statement (mark_processing i d g s p h m v)) = i == id
begins id (run_statement _) = false
begins id (claim u o k h p d) = false
begins id (claim_reconciliation i k d) = false
begins id (elsewhere transactions owners) = false

-- the calls of `mark_processing` for an id that a history answers with success
unfoldable pub times_begun : ℕ → List (Time × Call) → Db → ℕ
times_begun id [] db = 0
times_begun id ((now, c) ∷ rest) db =
    let (db', done) = step now c db in
    (if begins id c && done then 1 else 0) + times_begun id rest db'

chances-insert :
    (found : Option PaymentOperation) (row : PaymentOperation) (id : ℕ) (db : Db)
    → row.id ≡ db.next_id
    → chances id (Claims.insert_or_existing found row db).0 ≤ chances id db
unfolding chances Claims.insert_or_existing
chances-insert none row id db new = ground (arith, count-append (claimable id) db.operations row)
chances-insert (some old) row id db new = ground arith

chances-claim :
    (now : Time) (u : ℕ) (o : OperationKind) (k h p : Text) (d id : ℕ) (db : Db)
    → chances id (Claims.claim now u o k h p d db).0 ≤ chances id db
unfolding Claims.claim
chances-claim now u o k h p d id db = elim (Bool-cases (Claims.lock_active_owner u db)) [
  | inl active ↦ rw active (
      chances-insert (Claims.get_by_identity u o k db)
        (Claims.claimed_row db.next_id now u o k h p d) id db refl)
  | inr merged ↦ rw merged (omega arith)
]

claimable-statement :
    (id : ℕ) (now : Time) (c : StatementCall) (db : Db) (r : PaymentOperation)
    → claimable id (after (statement now c db) r) ≡ true
    → claimable id r ≡ true
unfolding statement
claimable-statement id now (reclaim_claimed i d) db r h = ground arith
claimable-statement id now _ db r h = ground arith

chances-claim_for_owner :
    (found : Option PaymentOperation) (now : Time) (i : ℕ) (k : Text) (d id : ℕ) (db : Db)
    → chances id (Reconciliation.claim_for_owner found (claim_reconciliation_stmt now i k d) db).0
      ≤ chances id db
unfolding Reconciliation.claim_for_owner chances
chances-claim_for_owner none now i k d id db = omega arith
chances-claim_for_owner (some x) now i k d id db =
    elim (Bool-cases (Claims.lock_active_owner x.user_id db)) [
      | inl active ↦ rw active (
          omega (
            arith,
            count-rows_after (claimable id) (claim_reconciliation_stmt now i k d)
                (unfold claim_reconciliation_stmt in λ r h. ground arith) db.operations,
          ))
      | inr merged ↦ rw merged (omega arith)
    ]

chances-statement :
    (now : Time) (c : StatementCall) (id : ℕ) (db : Db)
    → chances id (execute (statement now c db) db).0 ≤ chances id db
unfolding chances execute
chances-statement now c id db = omega (
  arith,
  count-rows_after (claimable id) (statement now c db) (λ r h. claimable-statement id now c db r h)
      db.operations,
)

-- A call of `mark_processing` that succeeds takes the chance away.
chances-begin :
    (now : Time) (i d : ℕ) (g : Text) (s p : Json) (h : Option Text) (m : RecoveryMode)
    (v : Option ℕ) (db : Db)
    → let (db', done) = execute (statement now (mark_processing i d g s p h m v) db) db in
      (if done then 1 else 0) + chances i db' ≤ chances i db
unfolding statement execute chances rows_after
chances-begin now i d g s p h m v db = ground (
  arith,
  count-consumed (claimable i)
      (λ r. record r {
        status = processing;
        lease_expires_at = some (now + d);
        gateway_type = some g;
        resolved_payment_snapshot = some s;
        provider_request_snapshot = some p;
        provider_owner_hash = h;
        recovery_mode = m;
        provider_replay_expires_at = Option.map (λ e. now + e) v;
        updated_at = now;
      })
      (λ r. ground arith) db.operations,
)

chances-execute :
    (now : Time) (c : StatementCall) (id : ℕ) (db : Db)
    → let (db', done) = execute (statement now c db) db in
      (if begins id (run_statement c) && done then 1 else 0) + chances id db' ≤ chances id db
chances-execute now (mark_processing i d g s p h m v) id db = elim (Bool-cases (i == id)) [
  | inl same ↦
      subst
        (λ n.
          let (db', done) = execute (statement now (mark_processing i d g s p h m v) db) db in
          (if (i == n) && done then 1 else 0) + chances n db' ≤ chances n db)
        (==→eq i id same) (rw ==-refl (chances-begin now i d g s p h m v db))
  | inr other ↦
      rw other (omega (arith, chances-statement now (mark_processing i d g s p h m v) id db))
]
chances-execute now (reclaim_claimed i d) id db =
    omega (arith, chances-statement now (reclaim_claimed i d) id db)
chances-execute now c id db = omega (arith, chances-statement now c id db)

chances-step :
    (now : Time) (c : Call) (id : ℕ) (db : Db)
    → let (db', done) = step now c db in
      (if begins id c && done then 1 else 0) + chances id db' ≤ chances id db
unfolding step Reconciliation.claim_reconciliation
chances-step now (claim u o k h p d) id db = omega (arith, chances-claim now u o k h p d id db)
chances-step now (claim_reconciliation i k d) id db =
    omega (arith, chances-claim_for_owner (Claims.get_by_id i db) now i k d id db)
chances-step now (run_statement c) id db = chances-execute now c id db
chances-step now (elsewhere transactions owners) id db = unfold chances in omega arith

times_begun-le :
    (id : ℕ) (history : List (Time × Call)) (db : Db) → times_begun id history db ≤ chances id db
unfolding times_begun
times_begun-le id [] db = omega arith
times_begun-le id ((now, c) ∷ rest) db =
    omega (arith, chances-step now c id db, times_begun-le id rest (step now c db).0)

unused_id :
    (id next : ℕ) (rows : List PaymentOperation)
    → All (λ r. r.id < next) rows
    → next ≤ id
    → count_where (claimable id) rows ≡ 0
unfolding count_where
unused_id id next [] h le = refl
unused_id id next (r ∷ rows) h le = ground (arith, unused_id id next rows h.1 le)

chances-le_one : (id : ℕ) (db : Db) → IsTable db → chances id db ≤ 1
unfolding chances
chances-le_one id db t = elim (Bool-cases (leb db.next_id id)) [
  | inl later ↦
      rw later (omega (arith, unused_id id db.next_id db.operations t.fresh (ground arith)))
  | inr given ↦
      rw given
        (omega (arith, count-le_one id (λ r. status_eq r.status claimed) db.operations t.keyed))
]

-- In every history of calls on a table, `mark_processing` succeeds at most once for an id: a
-- payment operation crosses the boundary of its external side effect at most once, whatever
-- requests, recoveries, deletions and sweeps happen around it.
pub begun_at_most_once :
    (id : ℕ) (history : List (Time × Call)) (db : Db) → IsTable db → times_begun id history db ≤ 1
begun_at_most_once id history db t =
    omega (arith, times_begun-le id history db, chances-le_one id db t)
