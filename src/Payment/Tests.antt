-- ===== src/Payment/Tests.antt =====
-- A small table of payment operations, runs of the service on it, and the theorems at work there.
use remnashop.Prelude.{◌≡◌, ◌≤◌, refl, true, false, none, some, List, [], ◌∷◌, arith, All}
use remnashop.Prelude.Result.{err}
use remnashop.Prelude.Tables.{find_where, select_where, order_by, update_where}
use remnashop.Payment.Operation.{
  Time, purchase, extend, claimed, unknown, succeeded, status_eq, local, PaymentOperation, Db,
  fulfilled,
}
use remnashop.Payment.Dao.Claims
use remnashop.Payment.Dao.Claims.{claimed_row, get_by_identity, lock_active_owner}
use remnashop.Payment.Dao.Reconciliation.{expired_candidates}
use remnashop.Payment.Calls.{
  StatementCall, statement, Call, claim_reconciliation, run_statement, step, run,
}
use remnashop.Payment.Calls.Rows.{by_id}
use remnashop.Payment.Invariant.{IsTable}
use remnashop.Payment.Invariant.Steps.{run-IsTable}
use remnashop.Payment.History.{RowMeets}
use remnashop.Payment.History.Final.{SucceededWith, LinkedTo, succeeded_is_final, link_is_final}
use remnashop.Payment.History.Lifecycle.{◌⟶*◌, history_follows_diagram}
use remnashop.Payment.History.Exclusive.{HeldBy, token_fences_row}
use remnashop.Payment.Once.{times_begun, begun_at_most_once}
use remnashop.Payment.Idempotency.{start, in_progress}
use remnashop.Payment.Idempotency.Start.{expected_answer, expected_row, start_known}
use remnashop.Payment.Idempotency.Leader.{answers, claim_has_one_leader}

-- id 1: a claim with its lease up to 900; id 2: a success; id 3: held by token 77 up to 500
abbrev waiting : PaymentOperation
waiting = record (claimed_row 1 0 10 purchase 100 200 300 0) { lease_expires_at = some 900 }

abbrev done : PaymentOperation
done = record (claimed_row 2 0 10 extend 101 201 301 0) {
  status = succeeded;
  lease_expires_at = none;
  response = some 5;
  transaction_id = some 40;
}

abbrev held : PaymentOperation
held = record (claimed_row 3 0 11 purchase 102 202 302 0) {
  status = unknown;
  lease_expires_at = none;
  reconcile_token_hash = some 77;
  reconcile_lease_expires_at = some 500;
  reconcile_attempt_count = 1;
}

abbrev office : Db
office = record {
  operations = waiting ∷ done ∷ held ∷ [];
  transactions =
      record {
        id = 40;
        user_id = 10;
        final_amount = 500;
        fulfillment_status = fulfilled;
        fulfillment_completed_at = some 3;
      }
      ∷ [];
  owners =
      record { id = 10; merged_into_user_id = none }
      ∷ record { id = 11; merged_into_user_id = some 10 }
      ∷ [];
  next_id = 4;
}

office-IsTable : IsTable office
unfolding find_where claimed_row
office-IsTable = record {
  keyed = (refl, (refl, (refl, tt)));
  fresh = (omega arith, (omega arith, (omega arith, tt)));
  consistent = (ground arith, (ground arith, (ground arith, tt)));
}

-- a lapsed claim is taken over, begun, and swept; a second begin is refused; the held row expires
abbrev history : List (Time × Call)
history =
    (1000, run_statement (StatementCall.reclaim_claimed 1 10))
    ∷ (1001, run_statement (StatementCall.mark_processing 1 5 7 8 9 none local none))
    ∷ (1002, run_statement (StatementCall.mark_processing 1 5 7 8 9 none local none))
    ∷ (1010, run_statement (StatementCall.expire_processing 1))
    ∷ (1011, claim_reconciliation 1 55 100)
    ∷ (1012, run_statement (StatementCall.expire_reconciliations (λ _. true) 10))
    ∷ (1013, run_statement (StatementCall.complete 2 5))
    ∷ []

begun_once : times_begun 1 history office ≡ 1
unfolding times_begun step statement find_where lock_active_owner Claims.get_by_id
    expired_candidates select_where order_by claimed_row update_where
begun_once = refl

run-IsTable_example : IsTable (run history office)
run-IsTable_example = run-IsTable history office office-IsTable

begun_at_most_once_example : times_begun 1 history office ≤ 1
begun_at_most_once_example = begun_at_most_once 1 history office office-IsTable

done-found : by_id 2 office.operations ≡ some done
unfolding find_where claimed_row
done-found = refl

succeeded_is_final_example : RowMeets (SucceededWith 5 40) 2 (run history office)
succeeded_is_final_example =
    succeeded_is_final 5 40 history 2 office office-IsTable (done, done-found, (refl, refl, refl))

link_is_final_example : RowMeets (LinkedTo 40) 2 (run history office)
link_is_final_example =
    link_is_final 40 history 2 office office-IsTable (done, done-found, (refl, refl))

held-found : by_id 3 office.operations ≡ some held
unfolding find_where claimed_row
held-found = refl

history_follows_diagram_example :
    RowMeets
      (λ r. (status_eq r.status claimed ≡ false) × (unknown ⟶* r.status))
      3
      (run history office)
history_follows_diagram_example =
    history_follows_diagram unknown history 3 office office-IsTable (held, held-found, (refl, refl))

abbrev others : List (Time × Call)
others =
    (10, claim_reconciliation 3 55 100)
    ∷ (20, run_statement (StatementCall.complete_reconciliation 3 55 41 6 none))
    ∷ (30, run_statement (StatementCall.mark_exhausted_reconciliation_manual 3 1))
    ∷ (600, run_statement (StatementCall.expire_reconciliations (λ _. true) 10))
    ∷ []

token_fences_row_example : RowMeets (HeldBy 77 500 none none none) 3 (run others office)
unfolding claimed_row
token_fences_row_example =
    token_fences_row 77 500 none none none others 3 office (tt, (omega arith, (tt, (tt, tt))))
      office-IsTable (held, held-found, (refl, refl, refl, refl, refl, refl))

active-10 : lock_active_owner 10 office ≡ true
unfolding lock_active_owner find_where
active-10 = refl

waiting-found : get_by_identity 10 purchase 100 office ≡ some waiting
unfolding get_by_identity find_where claimed_row
waiting-found = refl

start_known_example :
    let (db', answer) = start 950 10 purchase 100 200 999 office in
    (answer ≡ expected_answer 950 200 waiting)
    × (by_id waiting.id db'.operations ≡ some (expected_row 950 200 waiting))
start_known_example =
    start_known 950 10 purchase 100 200 999 office waiting office-IsTable active-10 waiting-found

claim_has_one_leader_example :
    All
      (λ answer. answer ≡ err in_progress)
      (answers 10 purchase 100 200 ((100, 1) ∷ (500, 2) ∷ (899, 3) ∷ []) office)
unfolding claimed_row
claim_has_one_leader_example =
    claim_has_one_leader 10 purchase 100 200 900 ((100, 1) ∷ (500, 2) ∷ (899, 3) ∷ []) office
      office-IsTable (active-10, waiting, waiting-found, refl, refl, refl)
      (omega arith, (omega arith, (omega arith, tt)))
