-- ===== src/Payment/Calls/Rows.antt =====
-- What a statement does to the row of one id.
use remnashop.Prelude.{
  ℕ, ◌≡◌, refl, ap, Bool, true, false, Option, some, List, [], ◌∷◌, ◌==◌, if◌then◌else◌, arith, All,
  Bool-cases, inl, inr,
}
use remnashop.Prelude.Tables.{find_where, update_where, delete_where}
use remnashop.Prelude.Tables.Laws.{find-update_where, find-delete_where}
use remnashop.Payment.Operation.{PaymentOperation}
use remnashop.Payment.Dao.Defs.{Statement, update, delete, rows_after}

-- whether the row is left, and its new value
abbrev pub survives : Statement → PaymentOperation → Bool
survives (update test set) r = true
survives (delete test) r = if test r then false else true

abbrev pub after : Statement → PaymentOperation → PaymentOperation
after (update test set) r = if test r then set r else r
after (delete test) r = r

-- A statement that writes the primary key of no row.
abbrev pub KeepsId : Statement → Type 0
KeepsId (update test set) = (r : PaymentOperation) → (set r).id ≡ r.id
KeepsId (delete test) = Unit

abbrev pub by_id : ℕ → List PaymentOperation → Option PaymentOperation
by_id id rows = find_where (λ r. r.id == id) rows

pub by_id-rows_after :
    (s : Statement) (id : ℕ) (rows : List PaymentOperation) (r : PaymentOperation)
    → KeepsId s
    → by_id id rows ≡ some r
    → survives s r ≡ true
    → by_id id (rows_after s rows).0 ≡ some (after s r)
unfolding rows_after
by_id-rows_after (update test set) id rows r same h alive =
    find-update_where (λ x. x.id == id) test set (λ x. ap (λ (n : ℕ). n == id) (same x)) rows r h
by_id-rows_after (delete test) id rows r same h alive =
    find-delete_where (λ x. x.id == id) test rows r h (ground arith)

-- A fact about the rows before a statement gives one about the rows after it.
pub All-rows_after :
    (P Q : PaymentOperation → Type 0) (s : Statement)
    → ((r : PaymentOperation) → survives s r ≡ true → P r → Q (after s r))
    → (rows : List PaymentOperation) → All P rows
    → All Q (rows_after s rows).0
unfolding rows_after update_where delete_where
All-rows_after P Q (update test set) f [] h = tt
All-rows_after P Q (update test set) f (r ∷ rows) h =
    let rest = All-rows_after P Q (update test set) f rows h.1 in
    elim (Bool-cases (test r)) [
      | inl t ↦ rw t (rw t at (f r refl h.0), rest)
      | inr e ↦ rw e (rw e at (f r refl h.0), rest)
    ]
All-rows_after P Q (delete test) f [] h = tt
All-rows_after P Q (delete test) f (r ∷ rows) h =
    let rest = All-rows_after P Q (delete test) f rows h.1 in
    elim (Bool-cases (test r)) [ inl t ↦ rw t rest | inr e ↦ rw e (f r (ground arith) h.0, rest) ]
