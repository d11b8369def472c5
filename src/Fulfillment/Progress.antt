-- ===== src/Fulfillment/Progress.antt =====
-- A payment makes progress: the event COMPLETED of a pending payment, and the end of its run, record
-- the purchase (`ProcessPayment`, src/application/use_cases/gateways/commands/payment.py).
use remnashop.Prelude.{
  ◌≡◌, ap, ◌≤◌, ◌<◌, ◌+◌, ◌&&◌, refl, Bool, true, false, none, some, Option-cases, inl, inr, arith,
  ℕ, ◌==◌, All, ==-refl, Time, Text, is_null,
}
use remnashop.Prelude.Result.{ok}
use remnashop.Prelude.Tables.{update_where, count_where}
use remnashop.Fulfillment.Row.{Transaction, completed, fulfilling, fulfilled, admissible}
use remnashop.Fulfillment.Statements.Events.{claim_fulfillment, claimable}
use remnashop.Fulfillment.Statements.Fence.{complete_fulfillment, held_by}
use remnashop.Fulfillment.Db.{
  Db, run_statement, get_by_payment_id, get_owner, lock_active_payment_owner,
}
use remnashop.Fulfillment.Calls.{statement, StatementCall, claim, complete}
use remnashop.Prelude.{ltb}
use remnashop.Prelude.Tables.Laws.{count-update_unseen, find-update_where, find-selected}
use remnashop.Fulfillment.Statements.Laws.{count_unique, updated-count, count-same}
use remnashop.Fulfillment.Checks.{IsAdmissible, is_not_release, never_refused}
use remnashop.Fulfillment.Calls.Kept.{of_payment, payment_id-kept}
use remnashop.Fulfillment.Process.{
  PaymentEvent, PyText, fulfil, receive, receive_known, receive_status, receive_completed,
  apply_method, conclude, fulfillment_lease,
}
use remnashop.Fulfillment.Settle.{settle, settle_applied, applied}

-- Payment ids are unique as far as `p` goes, the rows meet the CHECK constraints, and `t` is the row
-- of `p`.
pub record IsKnown (p : ℕ) (t : Transaction) (db : Db) : Type 0 where
  pub unique : count_where (of_payment p) db.transactions ≤ 1
  pub checked : All IsAdmissible db.transactions
  pub found : get_by_payment_id p db ≡ some t

-- A statement about the payment, whose condition its row meets.
run-IsKnown :
    (p : ℕ) (t : Transaction) (now : Time) (c : StatementCall) (more : Transaction → Bool) (db : Db)
    → IsKnown p t db
    → is_not_release c ≡ true
    → ((r : Transaction) → (statement now c db.transactions).test r ≡ (r.payment_id == p && more r))
    → more t ≡ true
    → let s = statement now c db.transactions in
      let db' = record db { transactions = (update_where s.test s.set db.transactions).0 } in
      (run_statement admissible s db ≡ some (db', true)) × IsKnown p (s.set t) db'
unfolding get_by_payment_id
run-IsKnown p t now c more db known other condition meets =
    let s = statement now c db.transactions in
    let (runs, checked) = never_refused now c db other known.checked in
    let one = count_unique (of_payment p) more db.transactions t known.unique known.found in
    let n = updated-count s.test s.set db.transactions in
    let same = count-same s.test (λ r. of_payment p r && more r) condition db.transactions in
    let mine : (t.payment_id == p) ≡ true =
      find-selected (of_payment p) db.transactions t known.found in
    let unseen : (r : Transaction) → of_payment p (s.set r) ≡ of_payment p r =
      λ r. rw (payment_id-kept now c db.transactions r) refl in
    let hit : ltb 0 (update_where s.test s.set db.transactions).1 ≡ true = ground arith in
    let met : s.test t ≡ true = ground (arith, condition t) in
    let kept = find-update_where (of_payment p) s.test s.set unseen db.transactions t known.found in
    (
      rw hit at runs,
      record {
        unique =
            rw (count-update_unseen (of_payment p) s.test s.set unseen db.transactions)
              known.unique;
        checked = checked;
        found = rw met at kept;
      },
    )

pub owner-there :
    (t : Transaction) (db : Db)
    → get_by_payment_id t.payment_id db ≡ some t
    → lock_active_payment_owner t.payment_id db ≡ true
    → is_null (get_owner t.user_id db) ≡ false
unfolding lock_active_payment_owner get_owner
owner-there t db found active = elim (Option-cases (get_owner t.user_id db)) [
  | inl e ↦ absurd (ground arith)
  | inr (u, e) ↦ rw e refl
]

-- the row after the claim, and after the end of the run
abbrev pub claimed_row : Time → Text → Transaction → Transaction
claimed_row now k t = record t {
  status = completed;
  cancellation_reason = none;
  fulfillment_status = fulfilling;
  fulfillment_token_hash = some k;
  fulfillment_started_at = some now;
  fulfillment_lease_expires_at = some (now + fulfillment_lease);
  fulfillment_completed_at = none;
  fulfillment_last_error = none;
}

abbrev pub fulfilled_row : Time → Time → Transaction → Transaction
fulfilled_row now later t = record t {
  status = completed;
  cancellation_reason = none;
  fulfillment_status = fulfilled;
  fulfillment_token_hash = none;
  fulfillment_started_at = some now;
  fulfillment_lease_expires_at = none;
  fulfillment_completed_at = some later;
  fulfillment_last_error = none;
}

module _ (py : PyText) where
  receive-claims :
      (now : Time) (k : Text) (event : PaymentEvent) (t : Transaction) (db : Db)
      → IsKnown t.payment_id t db
      → claimable t ≡ true
      → lock_active_payment_owner t.payment_id db ≡ true
      → event.payment_id ≡ t.payment_id
      → event.new_status ≡ completed
      → event.gateway_type ≡ t.gateway_type
      → event.selected_payment_method ≡ none
      → let (db', result) = receive py admissible now k event db in
        (result ≡ ok (fulfil false)) × IsKnown t.payment_id (claimed_row now k t) db'
  unfolding receive receive_known receive_status receive_completed apply_method conclude statement
      claim_fulfillment
  receive-claims now k event t db known ready active same status gateway method =
      let (runs, known') =
        run-IsKnown t.payment_id t now (claim t.payment_id k) claimable db known refl (λ r. refl)
          ready in
      let db' = record db {
        transactions =
            (update_where (claim_fulfillment now t.payment_id k fulfillment_lease).test
              (claim_fulfillment now t.payment_id k fulfillment_lease).set db.transactions).0;
      } in
      let there : is_null (get_owner t.user_id db') ≡ false = owner-there t db known.found active in
      let won : receive_completed py admissible now k false t db db ≡ (db', ok (fulfil false)) =
        rw (receive_completed, active, runs, there) refl in
      let all : receive_known py admissible now k event t db ≡ (db', ok (fulfil false)) =
        rw
          (
            receive_known,
            gateway,
            ==-refl,
            method,
            apply_method,
            owner-there t db known.found active,
            receive_status,
            status,
          )
          won in
      let done : receive py admissible now k event db ≡ (db', ok (fulfil false)) =
        rw (receive, same, known.found, all) refl in
      rw done (refl, known')

  settle-completes :
      (now later : Time) (k : Text) (defer : Bool) (t : Transaction) (db : Db)
      → IsKnown t.payment_id (claimed_row now k t) db
      → later < now + fulfillment_lease
      → let (db', result) = settle admissible later k t.payment_id false defer applied db in
        (result ≡ ok tt) × IsKnown t.payment_id (fulfilled_row now later t) db'
  unfolding settle settle_applied statement complete_fulfillment
  settle-completes now later k defer t db known soon =
      let p = t.payment_id in
      let (runs, known') =
        run-IsKnown p (claimed_row now k t) later (complete p k) (held_by k later) db known refl
          (λ r. refl) (ground arith) in
      let db' = record db {
        transactions =
            (update_where (complete_fulfillment later p k).test (complete_fulfillment later p k).set
              db.transactions).0;
      } in
      let done : settle_applied admissible later k p db ≡ (db', ok tt) =
        rw (settle_applied, runs) refl in
      let all : settle admissible later k p false defer applied db ≡ (db', ok tt) =
        rw (settle, done, ap (λ d. d.0) done) refl in
      rw all (refl, known')

  -- A payment that is pending, or was canceled by the local timeout, whose owner is active and whose
  -- provider says COMPLETED from the right gateway without a payment method, is claimed by that
  -- event. Whatever other calls come in between, where they have left the payment's row as it was
  -- claimed (nothing refunded it or expired its claim), the purchase went through and the lease of
  -- the claim has not ended, the run returns and the row is COMPLETED and fulfilled, with both
  -- instants, and nothing else of it has changed. The table keeps the CHECK constraints.
  pub paid_payment_is_settled :
      (now later : Time) (k : Text) (event : PaymentEvent) (t : Transaction) (db mid : Db)
      → IsKnown t.payment_id t db
      → claimable t ≡ true
      → lock_active_payment_owner t.payment_id db ≡ true
      → event.payment_id ≡ t.payment_id
      → event.new_status ≡ completed
      → event.gateway_type ≡ t.gateway_type
      → event.selected_payment_method ≡ none
      → IsKnown t.payment_id (claimed_row now k t) mid
      → later < now + fulfillment_lease
      → let (begun, won) = receive py admissible now k event db in
        let (ended, result) =
          settle admissible later k t.payment_id false event.defer_unreachable_fulfillment applied
            mid in
        (won ≡ ok (fulfil false))
        × IsKnown t.payment_id (claimed_row now k t) begun
        × (result ≡ ok tt)
        × IsKnown t.payment_id (fulfilled_row now later t) ended
  paid_payment_is_settled now later k event t db mid known ready active same status gateway method
        held soon =
      let (won, begun) =
        receive-claims now k event t db known ready active same status gateway method in
      let (result, ended) =
        settle-completes now later k event.defer_unreachable_fulfillment t mid held soon in
      (won, begun, result, ended)
