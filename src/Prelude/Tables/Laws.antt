-- ===== src/Prelude/Tables/Laws.antt =====
-- What a statement does to a whole table, from what it does to one row.
use package.remnashop.Prelude.Tests.{All, take, if◌then◌else◌, Bool-cases}
use package.remnashop.Prelude.Tables.{
  update_where, delete_where, find_where, count_where, select_where, insert_by, order_by,
}
use mathlib.Core.Path.{◌≡◌, refl, subst}
use Prim.Native.Nat.{ℕ, zero, suc}
use mathlib.Core.Bool.{Bool, true, false}
use mathlib.Core.Logic.{inl, inr}
use mathlib.Core.Option.{none, some}
use mathlib.Core.List.{List, [], ◌∷◌, ◌++◌}
use native.Mathlib.Omega.{arith}

module _ {ℓ κ} {A : Type ℓ} where
  pub All-append : (P : A → Type κ) (xs ys : List A) → All P xs → All P ys → All P (xs ++ ys)
  All-append P [] ys h k = k
  All-append P (x ∷ xs) ys h k = (h.0, All-append P xs ys h.1 k)

  pub All-update_where :
      (P : A → Type κ) (test : A → Bool) (set : A → A)
      → ((x : A) → test x ≡ true → P x → P (set x))
      → (xs : List A) → All P xs
      → All P (update_where test set xs).0
  unfolding update_where
  All-update_where P test set keep [] h = h
  All-update_where P test set keep (x ∷ xs) h = elim (Bool-cases (test x)) [
    | inl e ↦ rw e (keep x e h.0, All-update_where P test set keep xs h.1)
    | inr e ↦ rw e (h.0, All-update_where P test set keep xs h.1)
  ]

  pub All-delete_where :
      (P : A → Type κ) (test : A → Bool) (xs : List A) → All P xs → All P (delete_where test xs).0
  unfolding delete_where
  All-delete_where P test [] h = h
  All-delete_where P test (x ∷ xs) h = elim (Bool-cases (test x)) [
    | inl e ↦ rw e (All-delete_where P test xs h.1)
    | inr e ↦ rw e (h.0, All-delete_where P test xs h.1)
  ]

module _ {ℓ} {A : Type ℓ} where
  -- A change that no selector sees leaves what is found, up to the change.
  pub find-update_where :
      (key test : A → Bool) (set : A → A)
      → ((x : A) → key (set x) ≡ key x)
      → (xs : List A) (x : A) → find_where key xs ≡ some x
      → find_where key (update_where test set xs).0 ≡ some (if test x then set x else x)
  unfolding find_where update_where
  find-update_where key test set same [] x h = absurd (cc h)
  find-update_where key test set same (y ∷ ys) x h =
      ground (arith, same y, find-update_where key test set same ys x)

  -- The same where the selector does not see the change of a row that is changed.
  pub find-update_where_if :
      (key test : A → Bool) (set : A → A)
      → ((x : A) → test x ≡ true → key (set x) ≡ key x)
      → (xs : List A) (x : A) → find_where key xs ≡ some x
      → find_where key (update_where test set xs).0 ≡ some (if test x then set x else x)
  unfolding find_where update_where
  find-update_where_if key test set same [] x h = absurd (cc h)
  find-update_where_if key test set same (y ∷ ys) x h =
      ground (arith, same y, find-update_where_if key test set same ys x)

  -- A deletion that spares the first match leaves it the first match.
  pub find-delete_where :
      (key test : A → Bool) (xs : List A) (x : A)
      → find_where key xs ≡ some x
      → test x ≡ false
      → find_where key (delete_where test xs).0 ≡ some x
  unfolding find_where delete_where
  find-delete_where key test [] x h spared = absurd (cc h)
  find-delete_where key test (y ∷ ys) x h spared = ground (arith, find-delete_where key test ys x)

  -- A row at the end does not change what is found before it.
  pub find-append :
      (key : A → Bool) (xs ys : List A) (x : A)
      → find_where key xs ≡ some x
      → find_where key (xs ++ ys) ≡ some x
  unfolding find_where
  find-append key [] ys x h = absurd (cc h)
  find-append key (y ∷ xs) ys x h = ground (arith, find-append key xs ys x)

  pub find-append_none :
      (key : A → Bool) (xs ys : List A)
      → find_where key xs ≡ none
      → find_where key (xs ++ ys) ≡ find_where key ys
  unfolding find_where
  find-append_none key [] ys h = refl
  find-append_none key (y ∷ xs) ys h = ground (arith, find-append_none key xs ys)

  -- What is found is a row that the selector accepts.
  pub find-selected :
      (key : A → Bool) (xs : List A) (x : A) → find_where key xs ≡ some x → key x ≡ true
  unfolding find_where
  find-selected key [] x h = absurd (cc h)
  find-selected key (y ∷ ys) x h = ground (arith, find-selected key ys x)

module _ {ℓ κ} {A : Type ℓ} (P : A → Type κ) where
  pub All-find :
      (key : A → Bool) (xs : List A) (x : A) → All P xs → find_where key xs ≡ some x → P x
  unfolding find_where
  All-find key [] x h e = absurd (cc e)
  All-find key (y ∷ ys) x h e = elim (Bool-cases (key y)) [
    | inl t ↦ (let same : y ≡ x = ground arith in subst P same h.0)
    | inr f ↦ All-find key ys x h.1 (ground arith)
  ]

  pub All-select_where :
      (test : A → Bool) (xs : List A)
      → All P xs
      → All (λ x. P x × (test x ≡ true)) (select_where test xs)
  unfolding select_where
  All-select_where test [] h = tt
  All-select_where test (x ∷ xs) h = elim (Bool-cases (test x)) [
    | inl t ↦ rw t ((h.0, t), All-select_where test xs h.1)
    | inr f ↦ rw f (All-select_where test xs h.1)
  ]

  All-insert_by :
      (before : A → A → Bool) (x : A) (xs : List A) → P x → All P xs → All P (insert_by before x xs)
  unfolding insert_by
  All-insert_by before x [] p h = (p, tt)
  All-insert_by before x (y ∷ ys) p h = elim (Bool-cases (before x y)) [
    | inl t ↦ rw t (p, h)
    | inr f ↦ rw f (h.0, All-insert_by before x ys p h.1)
  ]

  pub All-order_by : (before : A → A → Bool) (xs : List A) → All P xs → All P (order_by before xs)
  unfolding order_by
  All-order_by before [] h = tt
  All-order_by before (x ∷ xs) h =
      All-insert_by before x (order_by before xs) h.0 (All-order_by before xs h.1)

  pub All-take : (n : ℕ) (xs : List A) → All P xs → All P (take n xs)
  All-take zero xs h = tt
  All-take (suc n) [] h = tt
  All-take (suc n) (x ∷ xs) h = (h.0, All-take n xs h.1)

module _ {ℓ κ} {A : Type ℓ} (P Q : A → Type κ) where
  pub All-map : ((x : A) → P x → Q x) → (xs : List A) → All P xs → All Q xs
  All-map f [] h = tt
  All-map f (x ∷ xs) h = (f x h.0, All-map f xs h.1)

  pub All-both : (xs : List A) → All P xs → All Q xs → All (λ x. P x × Q x) xs
  All-both [] h k = tt
  All-both (x ∷ xs) h k = ((h.0, k.0), All-both xs h.1 k.1)

-- Where a condition meets no row, nothing is found and nothing is changed.
module _ {ℓ} {A : Type ℓ} (test : A → Bool) where
  pub update-nothing :
      (set : A → A) (rows : List A)
      → count_where test rows ≡ 0
      → update_where test set rows ≡ (rows, 0)
  unfolding count_where update_where
  update-nothing set [] e = refl
  update-nothing set (r ∷ rows) e = ground (arith, update-nothing set rows)

  pub find-count_zero : (rows : List A) → count_where test rows ≡ 0 → find_where test rows ≡ none
  unfolding count_where find_where
  find-count_zero [] e = refl
  find-count_zero (r ∷ rows) e = ground (arith, find-count_zero rows)

-- The rows of a kind, where a change is not seen and a deletion spares them.
module _ {ℓ} {A : Type ℓ} (key test : A → Bool) where
  pub count-update_unseen :
      (set : A → A)
      → ((x : A) → key (set x) ≡ key x)
      → (rows : List A) → count_where key (update_where test set rows).0 ≡ count_where key rows
  unfolding count_where update_where
  count-update_unseen set same [] = refl
  count-update_unseen set same (x ∷ xs) = ground (arith, same x, count-update_unseen set same xs)

  pub count-delete_spared :
      ((x : A) → test x ≡ true → key x ≡ false)
      → (rows : List A) → count_where key (delete_where test rows).0 ≡ count_where key rows
  unfolding count_where delete_where
  count-delete_spared spared [] = refl
  count-delete_spared spared (x ∷ xs) = ground (arith, spared x, count-delete_spared spared xs)
