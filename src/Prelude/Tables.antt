-- ===== src/Prelude/Tables.antt =====
-- A table of rows and the statements on it: the rows that a condition selects are changed or
-- deleted, and the number of those rows comes back, as `rowcount` does.
pub mod Laws
use package.remnashop.Prelude.Tests.{if◌then◌else◌}
use Prim.Native.Nat.{ℕ, ◌+◌}
use mathlib.Core.Bool.{Bool, true, false}
use mathlib.Core.List.{List, [], ◌∷◌}
use mathlib.Core.Option.{Option, none, some}

module _ {ℓ} {A : Type ℓ} where
  -- `update(T).where(test).values(...)`
  unfoldable pub update_where : (A → Bool) → (A → A) → List A → List A × ℕ
  update_where test set [] = ([], 0)
  update_where test set (x ∷ xs) =
      let (ys, n) = update_where test set xs in if test x then (set x ∷ ys, n + 1) else (x ∷ ys, n)

  -- `delete(T).where(test)`
  unfoldable pub delete_where : (A → Bool) → List A → List A × ℕ
  delete_where test [] = ([], 0)
  delete_where test (x ∷ xs) =
      let (ys, n) = delete_where test xs in if test x then (ys, n + 1) else (x ∷ ys, n)

  -- `select(T).where(test)`, the first row
  unfoldable pub find_where : (A → Bool) → List A → Option A
  find_where test [] = none
  find_where test (x ∷ xs) = let rest = find_where test xs in if test x then some x else rest

  -- `select(T).where(test)`, every row
  unfoldable pub select_where : (A → Bool) → List A → List A
  select_where test [] = []
  select_where test (x ∷ xs) = let rest = select_where test xs in if test x then x ∷ rest else rest

  -- `select(func.count()).where(test)`
  unfoldable pub count_where : (A → Bool) → List A → ℕ
  count_where test [] = 0
  count_where test (x ∷ xs) = let n = count_where test xs in if test x then n + 1 else n

  insert_by : (A → A → Bool) → A → List A → List A
  insert_by before x [] = x ∷ []
  insert_by before x (y ∷ ys) =
      let rest = insert_by before x ys in if before x y then x ∷ y ∷ ys else y ∷ rest

  -- `order_by`, by a comparison of rows
  unfoldable pub order_by : (A → A → Bool) → List A → List A
  unfolding insert_by
  order_by before [] = []
  order_by before (x ∷ xs) = insert_by before x (order_by before xs)
