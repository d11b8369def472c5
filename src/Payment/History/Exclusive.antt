-- ===== src/Payment/History/Exclusive.antt =====
-- A reconciliation token fences a row off: nobody else's call writes what its holder works on.
use remnashop.Prelude.{ℕ, ◌≡◌, ◌≢◌, arith, true, List, Option, some, All}
use remnashop.Payment.Operation.{Time, Text, Json, PaymentOperation, Db}
use remnashop.Payment.Dao.Reconciliation.{claim_reconciliation_stmt}
use remnashop.Payment.Calls.{
  StatementCall, statement, reclaim_claimed, Call, run, run_statement, claim, claim_reconciliation,
  elsewhere,
}
use remnashop.Payment.Calls.Rows.{survives, after}
use remnashop.Payment.Invariant.{IsTable, Selects, is_reconcilable}
use remnashop.Payment.History.{RowMeets, IsKept, run-RowMeets}

-- the token that a call presents is another one, or it presents none
abbrev pub PresentsOther : Text → StatementCall → Type 0
PresentsOther k (StatementCall.release_reconciliation i j d e) = j ≢ k
PresentsOther k (StatementCall.checkpoint_reconciliation_result i j x) = j ≢ k
PresentsOther k (StatementCall.mark_manual_required i j e) = j ≢ k
PresentsOther k (StatementCall.link_manual_reconciliation i j t e) = j ≢ k
PresentsOther k (StatementCall.link_pending_fulfillment_reconciliation i j t x d) = j ≢ k
PresentsOther k (StatementCall.complete_reconciliation i j t x y) = j ≢ k
PresentsOther k _ = Unit

abbrev pub WithoutToken : Text → Time × Call → Type 0
WithoutToken k (now, run_statement c) = PresentsOther k c
WithoutToken k (now, claim u o key h p d) = Unit
WithoutToken k (now, claim_reconciliation i j d) = Unit
WithoutToken k (now, elsewhere transactions owners) = Unit

-- what the holder of token `k` has: the token with its lease, and the columns that it decides on
abbrev pub HeldBy : Text → Time → Option ℕ → Option Json → Option Json → PaymentOperation → Type 0
HeldBy k until t x y r =
    (is_reconcilable r.status ≡ true)
    × (r.reconcile_token_hash ≡ some k)
    × (r.reconcile_lease_expires_at ≡ some until)
    × (r.transaction_id ≡ t)
    × (r.provider_result_snapshot ≡ x)
    × (r.response ≡ y)

module _ (k : Text) (until : Time) (t : Option ℕ) (x y : Option Json) where
  held-kept :
      (now : Time) (c : StatementCall) (db : Db) (r : PaymentOperation)
      → PresentsOther k c
      → Selects now c db r
      → HeldBy k until t x y r
      → (survives (statement now c db) r ≡ true)
        × HeldBy k until t x y (after (statement now c db) r)
  unfolding statement
  held-kept now (reclaim_claimed i d) db r other sel h = ground arith
  held-kept now _ db r other sel h = ground arith

  held-IsKept : IsKept (WithoutToken k) (HeldBy k until t x y)
  unfolding claim_reconciliation_stmt
  held-IsKept = record {
    survives_statement = λ now c db r other sel h. (held-kept now c db r other sel h).0;
    keeps_statement = λ now c db r other sel h. (held-kept now c db r other sel h).1;
    keeps_claim = λ now i j d r h. ground arith;
  }

  -- While a row holds reconciliation token `k`, no history of calls that leaves `k` out (other
  -- workers, claims of the same row, sweepers, requests) takes the token, its lease, the linked
  -- transaction, the provider's result or the response away, or deletes the row.
  pub token_fences_row :
      (history : List (Time × Call)) (id : ℕ) (db : Db)
      → All (WithoutToken k) history
      → IsTable db
      → RowMeets (HeldBy k until t x y) id db
      → RowMeets (HeldBy k until t x y) id (run history db)
  token_fences_row history id db others table m =
      run-RowMeets held-IsKept history id db others table m
