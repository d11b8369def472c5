-- ===== src/Payment/Idempotency/Leader.antt =====
-- Of all requests with one key, one leads while its lease runs
-- (src/application/services/payment_idempotency.py).
use remnashop.Prelude.{
  ℕ, suc, ◌+◌, ◌<◌, ◌≡◌, refl, sym, true, false, some, List, [], ◌∷◌, ◌==◌, arith, All, le_col,
  ◌&&◌,
}
use remnashop.Prelude.Result.{Result, ok, err}
use remnashop.Payment.Operation.{
  Time, Text, claimed, status_eq, OperationKind, PaymentOperation, Db,
}
use remnashop.Payment.Dao.Claims
use remnashop.Payment.Dao.Claims.{get_by_id, get_by_identity, lock_active_owner}
use remnashop.Payment.Invariant.{IsTable}
use remnashop.Payment.Idempotency
use remnashop.Payment.Idempotency.{
  ServiceError, in_progress, PaymentOperationStart, claim_lease, start, recover_stale,
}
use remnashop.Payment.Idempotency.Start.{claim-known, found_by_id}
use remnashop.Payment.Invariant.Steps.{skip_id-IsTable}
use remnashop.Payment.Calls.Rows.{by_id}
use remnashop.Payment.Keys.{Keyed, update_idle}
use remnashop.Payment.Dao.Defs.{execute, rows_after}
use mathlib.Core.Path.{subst}

-- what later requests are told, each with its instant and the provider key that it drew
unfoldable pub answers :
    ℕ
    → OperationKind
    → Text
    → Text
    → List (Time × Text)
    → Db
    → List (Result ServiceError PaymentOperationStart)
answers u o k h [] db = []
answers u o k h ((now, p) ∷ rest) db =
    let (db', answer) = start now u o k h p db in answer ∷ answers u o k h rest db'

recover-waiting :
    (now : Time) (db : Db) (r : PaymentOperation)
    → Keyed db.operations
    → by_id r.id db.operations ≡ some r
    → le_col r.lease_expires_at now ≡ false
    → Idempotency.recover_by_status claimed now r db ≡ (db, ok (r, false))
unfolding Idempotency.recover_by_status execute rows_after Claims.reclaim_claimed get_by_id
recover-waiting now db r keyed there live =
    rw
      (update_idle r.id
        (λ x. x.id == r.id && status_eq x.status claimed && le_col x.lease_expires_at now)
        (λ x. record x { lease_expires_at = some (now + claim_lease); updated_at = now })
        db.operations r (λ x t. ground arith) keyed there (ground arith))
      (ground arith)

module _ (u : ℕ) (o : OperationKind) (k h : Text) (until : Time) where
  -- the row of the key: claimed for the same body, with a lease
  abbrev pub IsClaimed : Db → Type 0
  IsClaimed db =
      (lock_active_owner u db ≡ true)
      × (r : PaymentOperation) × (get_by_identity u o k db ≡ some r)
      × (r.status ≡ claimed)
      × (r.request_hash ≡ h)
      × (r.lease_expires_at ≡ some until)

  start-waiting :
      (now : Time) (p : Text) (db : Db)
      → IsTable db
      → IsClaimed db
      → now < until
      → start now u o k h p db ≡ (record db { next_id = suc db.next_id }, err in_progress)
  unfolding start recover_stale Idempotency.settle Idempotency.outcome
  start-waiting now p db table (active, r, found, status, body, lease) live =
      let db' : Db = record db { next_id = suc db.next_id } in
      let there = found_by_id now u o k h p db r table active found in
      let waiting : Idempotency.recover_by_status r.status now r db' ≡ (db', ok (r, false)) =
        subst (λ s. Idempotency.recover_by_status s now r db' ≡ (db', ok (r, false))) (sym status)
          (recover-waiting now db' r table.keyed there (ground arith)) in
      rw (claim-known now u o k h p db r table active found) (ground (arith, waiting))

  -- While the claim of a key runs, whatever number of further requests with that key and the same
  -- body arrives before its end, every one of them is told that the operation is in progress: the
  -- claim has one leader.
  pub claim_has_one_leader :
      (requests : List (Time × Text)) (db : Db)
      → IsTable db
      → IsClaimed db
      → All (λ request. request.0 < until) requests
      → All (λ answer. answer ≡ err in_progress) (answers u o k h requests db)
  unfolding answers lock_active_owner get_by_identity
  claim_has_one_leader [] db table c early = tt
  claim_has_one_leader ((now, p) ∷ rest) db table c early =
      rw (start-waiting now p db table c early.0) (
        refl,
        claim_has_one_leader rest (record db { next_id = suc db.next_id })
            (skip_id-IsTable db table) c early.1,
      )
