-- ===== src/Payment/Invariant/Selected.antt =====
-- The subquery of `expire_reconciliations` selects by primary key only rows whose reconciliation
-- lease has run out.
use remnashop.Prelude.{
  ℕ, ◌≡◌, sym, ap, ◌∙◌, Bool, true, some, List, [], ◌∷◌, ◌==◌, ◌&&◌, arith, All, Bool-cases, inl,
  inr, ==→eq,
}
use remnashop.Prelude.Tables.Laws.{All-select_where, All-order_by, All-take, All-map}
use mathlib.Core.Path.{subst}
use remnashop.Payment.Operation.{Time, PaymentOperation, Db}
use remnashop.Payment.Dao.Reconciliation.{expired_candidates, expired_reconciliation, is_in}
use remnashop.Payment.Calls.Rows.{by_id}

is_in-row :
    (P : PaymentOperation → Type 0) (id : ℕ) (rows : List PaymentOperation)
    → All P rows
    → is_in id rows ≡ true
    → (c : PaymentOperation) × (id ≡ c.id) × P c
is_in-row P id [] h e = absurd (cc e)
is_in-row P id (r ∷ rows) h e = elim (Bool-cases (id == r.id)) [
  | inl same ↦ (r, ==→eq id r.id same, h.0)
  | inr other ↦ is_in-row P id rows h.1 (ground arith)
]

-- the rows of the subquery, each with what makes it one
abbrev IsCandidate : Time → Db → PaymentOperation → Type 0
IsCandidate now db c = (by_id c.id db.operations ≡ some c) × (expired_reconciliation now c ≡ true)

candidates-IsCandidate :
    (free : ℕ → Bool) (now : Time) (n : ℕ) (db : Db)
    → All (λ r. by_id r.id db.operations ≡ some r) db.operations
    → All (IsCandidate now db) (expired_candidates free now n db)
unfolding expired_candidates
candidates-IsCandidate free now n db h = All-take _ n _ (
    All-order_by _ _ _ (
      All-map _ _ (λ r p. (p.0, ground arith)) _
        (All-select_where _ (λ r. expired_reconciliation now r && free r.id) db.operations h)))

pub expired_candidates_sound :
    (free : ℕ → Bool) (now : Time) (n : ℕ) (db : Db) (r : PaymentOperation)
    → All (λ x. by_id x.id db.operations ≡ some x) db.operations
    → by_id r.id db.operations ≡ some r
    → is_in r.id (expired_candidates free now n db) ≡ true
    → expired_reconciliation now r ≡ true
expired_candidates_sound free now n db r h found e =
    let (c, same, (there, old)) =
      is_in-row (IsCandidate now db) r.id (expired_candidates free now n db)
        (candidates-IsCandidate free now n db h) e in
    let row : some c ≡ some r =
      sym there ∙ ap (λ (i : ℕ). by_id i db.operations) (sym same) ∙ found in
    let one : c ≡ r = cc row in subst (λ x. expired_reconciliation now x ≡ true) one old
