-- ===== src/Payment/Keys.antt =====
-- The primary key of `payment_operations`: no two rows share an id, and no statement changes that.
use remnashop.Prelude.{
  ℕ, ◌≤◌, ◌≡◌, refl, ap, Bool, true, false, ◌&&◌, none, some, List, [], ◌∷◌, ◌++◌, ◌==◌,
  if◌then◌else◌, arith, All, Bool-cases, inl, inr, ==-refl,
}
use remnashop.Prelude.Tables.{find_where, count_where, update_where, delete_where}
use remnashop.Prelude.Tables.Laws.{All-map, All-both, find-update_where}
use remnashop.Payment.Operation.{PaymentOperation, Db}
use remnashop.Payment.Dao.Defs.{Statement, update, delete, rows_after, execute}
use remnashop.Payment.Calls.Rows.{KeepsId, by_id}

abbrev pub Keyed : List PaymentOperation → Type 0
Keyed [] = Unit
Keyed (r ∷ rows) = (by_id r.id rows ≡ none) × Keyed rows

not_found :
    (id : ℕ) (rows : List PaymentOperation)
    → by_id id rows ≡ none
    → All (λ x. (x.id == id) ≡ false) rows
unfolding find_where
not_found id [] h = tt
not_found id (r ∷ rows) h = elim (Bool-cases (r.id == id)) [
  | inl same ↦ absurd (ground arith)
  | inr other ↦ (other, not_found id rows (ground arith))
]

-- Every row is the one that its id finds.
pub Keyed-found :
    (rows : List PaymentOperation) → Keyed rows → All (λ r. by_id r.id rows ≡ some r) rows
unfolding find_where
Keyed-found [] h = tt
Keyed-found (r ∷ rows) h = (
  rw ==-refl refl,
  All-map _ _ (λ x p. ground arith) rows
      (All-both (λ x. (x.id == r.id) ≡ false) (λ x. by_id x.id rows ≡ some x) rows
        (not_found r.id rows h.0) (Keyed-found rows h.1)),
)

none-rows_after :
    (s : Statement) (id : ℕ) (rows : List PaymentOperation)
    → KeepsId s
    → by_id id rows ≡ none
    → by_id id (rows_after s rows).0 ≡ none
unfolding rows_after find_where update_where delete_where
none-rows_after (update test set) id [] keeps h = refl
none-rows_after (update test set) id (r ∷ rows) keeps h =
    ground (arith, keeps r, none-rows_after (update test set) id rows keeps)
none-rows_after (delete test) id [] keeps h = refl
none-rows_after (delete test) id (r ∷ rows) keeps h =
    ground (arith, none-rows_after (delete test) id rows keeps)

pub Keyed-rows_after :
    (s : Statement) (rows : List PaymentOperation)
    → KeepsId s
    → Keyed rows
    → Keyed (rows_after s rows).0
unfolding rows_after update_where delete_where
Keyed-rows_after (update test set) [] keeps h = tt
Keyed-rows_after (update test set) (r ∷ rows) keeps h =
    let rest = none-rows_after (update test set) r.id rows keeps h.0 in
    let keyed = Keyed-rows_after (update test set) rows keeps h.1 in
    elim (Bool-cases (test r)) [
      | inl t ↦ rw t (rw (keeps r) rest, keyed)
      | inr f ↦ rw f (rest, keyed)
    ]
Keyed-rows_after (delete test) [] keeps h = tt
Keyed-rows_after (delete test) (r ∷ rows) keeps h =
    let rest = none-rows_after (delete test) r.id rows keeps h.0 in
    let keyed = Keyed-rows_after (delete test) rows keeps h.1 in
    elim (Bool-cases (test r)) [ inl t ↦ rw t keyed | inr f ↦ rw f (rest, keyed) ]

none-append :
    (id : ℕ) (rows : List PaymentOperation) (r : PaymentOperation)
    → by_id id rows ≡ none
    → (r.id == id) ≡ false
    → by_id id (rows ++ r ∷ []) ≡ none
unfolding find_where
none-append id [] r h new = rw new refl
none-append id (x ∷ rows) r h new = ground (arith, none-append id rows r)

pub Keyed-append :
    (rows : List PaymentOperation) (r : PaymentOperation)
    → by_id r.id rows ≡ none
    → Keyed rows
    → Keyed (rows ++ r ∷ [])
unfolding find_where
Keyed-append [] r h k = (refl, tt)
Keyed-append (x ∷ rows) r h k =
    (none-append x.id rows r k.0 (ground arith), Keyed-append rows r (ground arith) k.1)

absent_count :
    (id : ℕ) (test : PaymentOperation → Bool) (rows : List PaymentOperation)
    → by_id id rows ≡ none
    → count_where (λ r. r.id == id && test r) rows ≡ 0
unfolding find_where count_where
absent_count id test [] h = refl
absent_count id test (r ∷ rows) h = ground (arith, absent_count id test rows)

-- A condition that names an id meets one row at most.
pub count-le_one :
    (id : ℕ) (test : PaymentOperation → Bool) (rows : List PaymentOperation)
    → Keyed rows
    → count_where (λ r. r.id == id && test r) rows ≤ 1
unfolding count_where
count-le_one id test [] h = omega arith
count-le_one id test (r ∷ rows) h = elim (Bool-cases (r.id == id)) [
  | inl same ↦ ground (arith, absent_count r.id test rows h.0)
  | inr other ↦ ground (arith, count-le_one id test rows h.1)
]

absent_update :
    (id : ℕ) (test : PaymentOperation → Bool) (set : PaymentOperation → PaymentOperation)
    (rows : List PaymentOperation)
    → ((r : PaymentOperation) → test r ≡ true → (r.id == id) ≡ true)
    → by_id id rows ≡ none
    → update_where test set rows ≡ (rows, 0)
unfolding find_where update_where
absent_update id test set [] only h = refl
absent_update id test set (r ∷ rows) only h = elim (Bool-cases (test r)) [
  | inl t ↦ absurd (ground (arith, only r t))
  | inr f ↦ rw (absent_update id test set rows only (ground arith), f) refl
]

-- An update that names an id meets the row of that id or none.
pub update_count :
    (id : ℕ) (test : PaymentOperation → Bool) (set : PaymentOperation → PaymentOperation)
    (rows : List PaymentOperation) (r : PaymentOperation)
    → ((x : PaymentOperation) → test x ≡ true → (x.id == id) ≡ true)
    → Keyed rows
    → by_id id rows ≡ some r
    → (update_where test set rows).1 ≡ (if test r then 1 else 0)
unfolding find_where update_where
update_count id test set [] r only k h = absurd (cc h)
update_count id test set (x ∷ rows) r only k h = elim (Bool-cases (x.id == id)) [
  | inl same ↦
      let row : x ≡ r = ground arith in
      rw (← row) (
        ground (
          arith,
          ap (λ (p : List PaymentOperation × ℕ). p.1)
              (absent_update id test set rows only (ground (arith, k.0))),
        ))
  | inr other ↦ ground (arith, only x, update_count id test set rows r only k.1)
]

-- An update whose condition the row of its id does not meet changes nothing.
pub update_idle :
    (id : ℕ) (test : PaymentOperation → Bool) (set : PaymentOperation → PaymentOperation)
    (rows : List PaymentOperation) (r : PaymentOperation)
    → ((x : PaymentOperation) → test x ≡ true → (x.id == id) ≡ true)
    → Keyed rows
    → by_id id rows ≡ some r
    → test r ≡ false
    → update_where test set rows ≡ (rows, 0)
unfolding find_where update_where
update_idle id test set [] r only k h e = refl
update_idle id test set (x ∷ rows) r only k h e = elim (Bool-cases (x.id == id)) [
  | inl same ↦
      let row : x ≡ r = ground arith in
      rw (absent_update id test set rows only (ground (arith, k.0)), row, e) refl
  | inr other ↦
      rw (update_idle id test set rows r only k.1 (ground arith) e) (ground (arith, only x))
]

-- A statement that names an id: whether its method answers yes, and the row that it leaves.
pub execute-row :
    (test : PaymentOperation → Bool) (set : PaymentOperation → PaymentOperation) (id : ℕ) (db : Db)
    (r : PaymentOperation)
    → ((x : PaymentOperation) → test x ≡ true → (x.id == id) ≡ true)
    → ((x : PaymentOperation) → (set x).id ≡ x.id)
    → Keyed db.operations
    → by_id id db.operations ≡ some r
    → ((execute (update test set) db).1 ≡ test r)
      × (by_id id (execute (update test set) db).0.operations ≡ some (if test r then set r else r))
unfolding execute rows_after
execute-row test set id db r only same k h = (
  rw (update_count id test set db.operations r only k h) (ground arith),
  find-update_where (λ x. x.id == id) test set (λ x. ap (λ (n : ℕ). n == id) (same x)) db.operations
      r h,
)
