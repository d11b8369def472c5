-- ===== src/Prelude/Columns.antt =====
-- Nullable columns as SQL compares them: a comparison with NULL is not true.
use Prim.Native.Nat.{ℕ}
use mathlib.Core.Bool.{Bool, true, false}
use mathlib.Core.Option.{Option, none, some}
use package.remnashop.Prelude.Tests.{leb, ltb, ◌==◌}

-- `column.is_(None)`
abbrev pub is_null {ℓ} : {A : Type ℓ} → Option A → Bool
is_null none = true
is_null (some _) = false

-- `column.is_not(None)`
abbrev pub is_not_null {ℓ} : {A : Type ℓ} → Option A → Bool
is_not_null none = false
is_not_null (some _) = true

-- `column == value`
abbrev pub eq_col : Option ℕ → ℕ → Bool
eq_col none _ = false
eq_col (some a) b = a == b

-- `column <= value`
abbrev pub le_col : Option ℕ → ℕ → Bool
le_col none _ = false
le_col (some a) b = leb a b

-- `column > value`
abbrev pub gt_col : Option ℕ → ℕ → Bool
gt_col none _ = false
gt_col (some a) b = ltb b a
