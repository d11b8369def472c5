-- ===== src/Payment/Idempotency/Start.antt =====
-- `start` against a decision table that looks at nothing but the row of the request's key
-- (src/application/services/payment_idempotency.py).
use remnashop.Prelude.{
  ℕ, suc, ◌+◌, ◌≡◌, refl, Bool, true, false, ◌&&◌, none, some, ◌==◌, if◌then◌else◌, arith,
  Bool-cases, inl, inr, le_col,
}
use remnashop.Prelude.Result.{Result, ok, err}
use remnashop.Prelude.Tables.Laws.{All-find}
use remnashop.Payment.Operation.{
  Time, Text, Status, claimed, processing, succeeded, unknown, manual_required, status_eq,
  OperationKind, PaymentOperation, Db,
}
use remnashop.Payment.Dao.Claims
use remnashop.Payment.Dao.Claims.{get_by_id, get_by_identity, lock_active_owner}
use remnashop.Payment.Dao.Processing
use remnashop.Payment.Calls.Rows.{by_id}
use remnashop.Payment.Keys.{Keyed, Keyed-found, execute-row}
use remnashop.Payment.Invariant.{IsTable}
use remnashop.Payment.Idempotency
use remnashop.Payment.Idempotency.{
  ServiceError, conflict, in_progress, outcome_unknown, operation_owner_merged,
  PaymentOperationStart, claim_lease, start, recover_stale,
}

abbrev pub leader : PaymentOperation → Result ServiceError PaymentOperationStart
leader r =
    ok (record { operation_id = r.id; provider_key = r.provider_key; replay_response = none })

abbrev replayed : PaymentOperation → Result ServiceError PaymentOperationStart
replayed r = elim r.response [
  | none ↦ err outcome_unknown
  | some x ↦
      ok (record { operation_id = r.id; provider_key = r.provider_key; replay_response = some x })
]

-- The answer to a request of the same body, by status and by whether the row's lease has run out.
abbrev answer_for : Status → Bool → PaymentOperation → Result ServiceError PaymentOperationStart
answer_for claimed true r = leader r
answer_for claimed false r = err in_progress
answer_for processing true r = err outcome_unknown
answer_for processing false r = err in_progress
answer_for succeeded lapsed r = replayed r
answer_for unknown lapsed r = err outcome_unknown
answer_for manual_required lapsed r = err outcome_unknown

abbrev row_for : Time → Status → Bool → PaymentOperation → PaymentOperation
row_for now claimed true r = record r {
  lease_expires_at = some (now + claim_lease);
  updated_at = now;
}
row_for now processing true r = record r {
  status = unknown;
  lease_expires_at = none;
  updated_at = now;
}
row_for now _ lapsed r = r

abbrev pub expected_answer :
    Time → Text → PaymentOperation → Result ServiceError PaymentOperationStart
expected_answer now request_hash r =
    if r.request_hash == request_hash
    then answer_for r.status (le_col r.lease_expires_at now) r
    else err conflict

abbrev pub expected_row : Time → Text → PaymentOperation → PaymentOperation
expected_row now request_hash r =
    if r.request_hash == request_hash
    then row_for now r.status (le_col r.lease_expires_at now) r
    else r

-- what `recover_stale` leaves of a stored row, and whom it makes the leader
abbrev recovered : Time → Status → Bool → PaymentOperation → PaymentOperation × Bool
recovered now claimed true r = (r, true)
recovered now s lapsed r = (row_for now s lapsed r, false)

module _ (now : Time) (db : Db) (r : PaymentOperation) (keyed : Keyed db.operations)
    (there : by_id r.id db.operations ≡ some r) where
  recover_claimed :
      (lapsed : Bool)
      → r.status ≡ claimed
      → le_col r.lease_expires_at now ≡ lapsed
      → let (db', answer) = Idempotency.recover_by_status claimed now r db in
        (answer ≡ ok (recovered now claimed lapsed r))
        × (by_id r.id db'.operations ≡ some (row_for now claimed lapsed r))
  unfolding Idempotency.recover_by_status Claims.reclaim_claimed get_by_id
  recover_claimed lapsed s e = ground (
    arith,
    execute-row (λ x. x.id == r.id && status_eq x.status claimed && le_col x.lease_expires_at now)
        (λ x. record x { lease_expires_at = some (now + claim_lease); updated_at = now }) r.id db r
        (λ x t. ground arith) (λ x. refl) keyed there,
  )

  recover_processing :
      (lapsed : Bool)
      → r.status ≡ processing
      → le_col r.lease_expires_at now ≡ lapsed
      → let (db', answer) = Idempotency.recover_by_status processing now r db in
        (answer ≡ ok (recovered now processing lapsed r))
        × (by_id r.id db'.operations ≡ some (row_for now processing lapsed r))
  unfolding Idempotency.recover_by_status Processing.expire_processing get_by_id
  recover_processing lapsed s e = ground (
    arith,
    execute-row
        (λ x. x.id == r.id && status_eq x.status processing && le_col x.lease_expires_at now)
        (λ x. record x { status = unknown; lease_expires_at = none; updated_at = now }) r.id db r
        (λ x t. ground arith) (λ x. refl) keyed there,
  )

  recover_any :
      (s : Status) (lapsed : Bool)
      → r.status ≡ s
      → le_col r.lease_expires_at now ≡ lapsed
      → let (db', answer) = Idempotency.recover_by_status s now r db in
        (answer ≡ ok (recovered now s lapsed r))
        × (by_id r.id db'.operations ≡ some (row_for now s lapsed r))
  recover_any claimed lapsed s e = recover_claimed lapsed s e
  recover_any processing lapsed s e = recover_processing lapsed s e
  recover_any succeeded lapsed s e = unfold Idempotency.recover_by_status in (refl, there)
  recover_any unknown lapsed s e = unfold Idempotency.recover_by_status in (refl, there)
  recover_any manual_required lapsed s e = unfold Idempotency.recover_by_status in (refl, there)

outcome-recovered :
    (now : Time) (h : Text) (r : PaymentOperation) (s : Status) (lapsed : Bool)
    → r.status ≡ s
    → (r.request_hash == h) ≡ true
    → let (row, became_leader) = recovered now s lapsed r in
      Idempotency.outcome h false became_leader row ≡ answer_for s lapsed r
unfolding Idempotency.outcome
outcome-recovered now h r claimed true e same = ground arith
outcome-recovered now h r claimed false e same = ground arith
outcome-recovered now h r processing true e same = ground arith
outcome-recovered now h r processing false e same = ground arith
outcome-recovered now h r succeeded lapsed e same = ground arith
outcome-recovered now h r unknown lapsed e same = ground arith
outcome-recovered now h r manual_required lapsed e same = ground arith

settle-ok :
    (before : Db) (h : Text) (created : Bool)
    (m : Db × Result ServiceError (PaymentOperation × Bool)) (x : PaymentOperation × Bool)
    → m.1 ≡ ok x
    → Idempotency.settle before h created m ≡ (m.0, Idempotency.outcome h created x.1 x.0)
unfolding Idempotency.settle
settle-ok before h created m x e = rw e refl

module _ (now : Time) (u : ℕ) (o : OperationKind) (k h p : Text) (db : Db) (r : PaymentOperation)
    (table : IsTable db) (active : lock_active_owner u db ≡ true)
    (found : get_by_identity u o k db ≡ some r) where
  pub found_by_id : by_id r.id db.operations ≡ some r
  unfolding get_by_identity
  found_by_id =
      All-find (λ x. by_id x.id db.operations ≡ some x) (Claims.has_identity u o k) db.operations r
        (Keyed-found db.operations table.keyed) found

  pub claim-known :
      Claims.claim now u o k h p claim_lease db
      ≡ (record db { next_id = suc db.next_id }, ok (r, false))
  unfolding Claims.claim
  claim-known = rw (active, found, Claims.insert_or_existing) refl

  -- A request whose key has a row, from an owner who was not merged: `start` answers by the row
  -- alone, as the decision table says. Another body is a conflict; the same body takes over a
  -- claim whose lease has run out, waits for one that has not, is told that the outcome is unknown
  -- where a payment's lease has run out or needs reconciliation, and gets the stored response of a
  -- success. The row is left as the table says: a new lease, or UNKNOWN, or as it was.
  pub start_known :
      let (db', answer) = start now u o k h p db in
      (answer ≡ expected_answer now h r) × (by_id r.id db'.operations ≡ some (expected_row now h r))
  unfolding start
  start_known =
      let db' : Db = record db { next_id = suc db.next_id } in
      let lapsed : Bool = le_col r.lease_expires_at now in
      let (answered, left) =
        recover_any now db' r table.keyed found_by_id r.status lapsed refl refl in
      rw claim-known (elim (Bool-cases (r.request_hash == h)) [
        | inl same ↦
            rw
              (
                same,
                settle-ok db h false (recover_stale now r db') (recovered now r.status lapsed r)
                    answered,
              )
              (outcome-recovered now h r r.status lapsed refl same, left)
        | inr other ↦ rw other (unfold Idempotency.outcome in refl, found_by_id)
      ])
