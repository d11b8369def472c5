-- ===== src/Fulfillment/Checks.antt =====
-- The statements of the DAO against the CHECK constraints of `transactions`
-- (src/infrastructure/database/dao/transaction.py,
-- src/infrastructure/database/models/transaction.py).
use remnashop.Prelude.{
  ◌≡◌, List, [], ◌∷◌, refl, Bool, true, false, some, arith, ℕ, ◌==◌, All, Time, Text,
}
use remnashop.Prelude.Result.{err}
use remnashop.Prelude.Tables.{update_where, count_where, find_where}
use remnashop.Prelude.Tables.Laws.{All-update_where}
use remnashop.Fulfillment.Row.{Transaction, admissible, fulfillment_state, cancellation_state}
use remnashop.Fulfillment.Statements.Laws.{refused_row, run-fine, run-refused}
use remnashop.Fulfillment.Statements.Events.{
  set_payment_method_if_absent_or_equal, transition_refunded, cancel_by_provider, claim_fulfillment,
  mark_refund_manual_required, cancel_old,
}
use remnashop.Fulfillment.Statements.Fence.{
  complete_fulfillment, mark_fulfillment_manual_required, release_unapplied_fulfillment,
  expire_fulfillment, expire_fulfillments, expire_merged_fulfillments, held_by,
}
use remnashop.Fulfillment.Statements.Alerts.{
  claim_manual_fulfillment_alerts, mark_fulfillment_alerted, release_fulfillment_alert,
}
use remnashop.Fulfillment.Db.{Db, run_statement, get_by_payment_id}
use remnashop.Fulfillment.Calls.{
  statement, StatementCall, set_method, refund, provider_cancel, mark_refund, expire, claim,
  complete, release, mark_manual, mark_alerted, expire_all, expire_merged, claim_alerts,
  release_alert, time_out,
}
use remnashop.Prelude.{ltb}
use remnashop.Fulfillment.Process.{refused}
use remnashop.Fulfillment.Settle.{settle, settle_deferred, unreachable}

-- A statement other than `release_unapplied_fulfillment`.
abbrev pub is_not_release : StatementCall → Bool
is_not_release (release p k) = false
is_not_release _ = true

kept-admissible :
    (now : Time) (c : StatementCall) (rows : List Transaction) (r : Transaction)
    → is_not_release c ≡ true
    → admissible r ≡ true
    → (statement now c rows).test r ≡ true
    → admissible ((statement now c rows).set r) ≡ true
unfolding statement admissible fulfillment_state cancellation_state
    set_payment_method_if_absent_or_equal transition_refunded cancel_by_provider
    mark_refund_manual_required expire_fulfillment claim_fulfillment complete_fulfillment
    release_unapplied_fulfillment cancel_old mark_fulfillment_manual_required expire_fulfillments
    expire_merged_fulfillments claim_manual_fulfillment_alerts mark_fulfillment_alerted
    release_fulfillment_alert
kept-admissible now (set_method p m) rows r kept a t = ground arith
kept-admissible now (refund p) rows r kept a t = ground arith
kept-admissible now (provider_cancel p) rows r kept a t = ground arith
kept-admissible now (mark_refund p) rows r kept a t = ground arith
kept-admissible now (expire p) rows r kept a t = ground arith
kept-admissible now (claim p k) rows r kept a t = ground arith
kept-admissible now (complete p k) rows r kept a t = ground arith
kept-admissible now (release p k) rows r kept a t = ground arith
kept-admissible now (time_out m) rows r kept a t = ground arith
kept-admissible now (mark_manual p k e) rows r kept a t = ground arith
kept-admissible now (expire_all free n) rows r kept a t = ground arith
kept-admissible now (expire_merged u v) rows r kept a t = ground arith
kept-admissible now (claim_alerts free k d n) rows r kept a t = ground arith
kept-admissible now (mark_alerted p k) rows r kept a t = ground arith
kept-admissible now (release_alert p k d) rows r kept a t = ground arith

abbrev pub IsAdmissible : Transaction → Type 0
IsAdmissible r = admissible r ≡ true

none_refused :
    (now : Time) (c : StatementCall) (all rows : List Transaction)
    → is_not_release c ≡ true
    → All IsAdmissible rows
    → count_where (refused_row admissible (statement now c all)) rows ≡ 0
unfolding count_where
none_refused now c all [] other h = refl
none_refused now c all (r ∷ rows) other h =
    let rest = none_refused now c all rows other h.1 in
    ground (arith, kept-admissible now c all r other h.0)

-- On a table whose rows meet the CHECK constraints, every statement of `StatementCall` (the UPDATEs on
-- fulfilments, refunds, cancellations, methods and alerts that the program calls) but
-- `release_unapplied_fulfillment` runs: the database refuses no row of it, the rows it meets are
-- changed, and the rows after it meet the constraints again. The methods `update`, `update_status`
-- and `transition_status` of the DAO are not among them.
pub never_refused :
    (now : Time) (c : StatementCall) (db : Db)
    → is_not_release c ≡ true
    → All IsAdmissible db.transactions
    → let s = statement now c db.transactions in
      let (rows, n) = update_where s.test s.set db.transactions in
      (run_statement admissible s db ≡ some (record db { transactions = rows }, ltb 0 n))
      × All IsAdmissible rows
never_refused now c db other h =
    let s = statement now c db.transactions in
    (
      run-fine admissible s db (none_refused now c db.transactions db.transactions other h),
      All-update_where IsAdmissible s.test s.set
          (λ r t a. kept-admissible now c db.transactions r other a t) db.transactions h,
    )

released_row :
    (now : Time) (p : ℕ) (k : Text) (r : Transaction)
    → held_by k now r ≡ true
    → admissible ((release_unapplied_fulfillment now p k).set r) ≡ false
unfolding release_unapplied_fulfillment admissible fulfillment_state cancellation_state
released_row now p k r held = ground arith

some_refused :
    (now : Time) (p : ℕ) (k : Text) (rows : List Transaction) (t : Transaction)
    → find_where (λ r. r.payment_id == p) rows ≡ some t
    → held_by k now t ≡ true
    → (count_where (refused_row admissible (release_unapplied_fulfillment now p k)) rows == 0)
      ≡ false
unfolding count_where find_where release_unapplied_fulfillment
some_refused now p k [] t found held = absurd (cc found)
some_refused now p k (r ∷ rows) t found held =
    let rest = some_refused now p k rows t in ground (arith, released_row now p k t held)

-- The run that holds the claim of a payment, whose purchase could not reach the panel and which may
-- be deferred, cannot give the claim back: the database refuses the row that
-- `release_unapplied_fulfillment` writes, COMPLETED with fulfilment NOT_STARTED, the transaction is
-- undone and the run raises. The claim stays held.
pub deferral_refused :
    (now : Time) (k : Text) (p : ℕ) (conflict : Bool) (db : Db) (t : Transaction)
    → get_by_payment_id p db ≡ some t
    → held_by k now t ≡ true
    → settle admissible now k p conflict true unreachable db ≡ (db, err refused)
unfolding settle settle_deferred get_by_payment_id
deferral_refused now k p conflict db t found held =
    let gone =
      run-refused admissible (release_unapplied_fulfillment now p k) db
        (some_refused now p k db.transactions t found held) in
    rw (settle, settle_deferred, gone) refl
