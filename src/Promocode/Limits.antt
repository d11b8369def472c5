-- ===== src/Promocode/Limits.antt =====
-- The limits of a promocode under concurrent activations (`create_activation` of
-- src/infrastructure/database/dao/promocode.py): the transactions of any users in any order, each
-- with the promocode as it was read some time before.
use remnashop.Prelude.{
  ℕ, ◌+◌, ◌≤◌, ◌≡◌, refl, max, Time, Bool, false, ◌&&◌, none, some, List, [], ◌∷◌, ◌++◌, ◌==◌,
  if◌then◌else◌, arith, All, Bool-cases, Option-cases, inl, inr, ◌⊎◌, ==→eq,
}
use remnashop.Prelude.Tables.{count_where, find_where}
use remnashop.Promocode.Model.{
  Promocode, Db, get_activations_count, get_activation_by_user, PromocodeError, limit_reached,
  already_activated,
}
use remnashop.Promocode.Activate.{create_activation, commit}
use remnashop.Promocode.Reward.{PendingReward, persist_reward}
use remnashop.Promocode.Validate.{is_exhausted, is_redeemed}
use remnashop.Prelude.Result.{ok, err}

-- the transaction of an activation
pub record Commit : Type 0 where
  pub at : Time
  pub promo : Promocode
  pub user_id : ℕ
  pub pending : PendingReward

unfoldable pub commit_all : List Commit → Db → Db
unfolding commit
commit_all [] db = db
commit_all (c ∷ commits) db = commit_all commits (commit c.at c.promo c.user_id c.pending db).0

-- the activations of a promocode by a user
unfoldable pub redeemed_by : ℕ → ℕ → Db → ℕ
redeemed_by promocode_id user_id db =
    count_where (λ a. a.promocode_id == promocode_id && a.user_id == user_id) db.activations

module _ {ℓ} {A : Type ℓ} where
  count-append :
      (test : A → Bool) (xs : List A) (x : A)
      → count_where test (xs ++ x ∷ []) ≡ count_where test xs + (if test x then 1 else 0)
  unfolding count_where
  count-append test [] x = ground arith
  count-append test (y ∷ xs) x = ground (arith, count-append test xs x)

  count-none : (test : A → Bool) (xs : List A) → find_where test xs ≡ none → count_where test xs ≡ 0
  unfolding count_where find_where
  count-none test [] h = refl
  count-none test (y ∷ xs) h = ground (arith, count-none test xs)

-- a transaction that is refused, or one that the limits let through and that adds its row
pub commit-cases :
    (now : Time) (promo : Promocode) (user_id : ℕ) (pending : PendingReward) (db : Db)
    → ((e : PromocodeError) × (commit now promo user_id pending db ≡ (db, err e)))
      ⊎ ((is_exhausted promo.max_activations (get_activations_count promo.id db) ≡ false)
          × (is_redeemed promo (get_activation_by_user promo.id user_id db) ≡ false)
          × (commit now promo user_id pending db ≡ (
            record db {
              activations =
                  db.activations
                  ++ record { promocode_id = promo.id; user_id = user_id; activated_at = now } ∷ [];
              shop = persist_reward user_id pending db.shop;
            },
            ok promo,
          )))
unfolding commit create_activation
commit-cases now promo user_id pending db =
    elim (Bool-cases (is_exhausted promo.max_activations (get_activations_count promo.id db))) [
      | inl t ↦ inl (limit_reached, ground arith)
      | inr f ↦ elim (Bool-cases (is_redeemed promo (get_activation_by_user promo.id user_id db))) [
        | inl t ↦ inl (already_activated, ground arith)
        | inr g ↦ inr (f, g, ground arith)
      ]
    ]

pub commit-open :
    (now : Time) (promo : Promocode) (user_id : ℕ) (pending : PendingReward) (db : Db)
    → is_exhausted promo.max_activations (get_activations_count promo.id db) ≡ false
    → is_redeemed promo (get_activation_by_user promo.id user_id db) ≡ false
    → commit now promo user_id pending db ≡ (
      record db {
        activations =
            db.activations
            ++ record { promocode_id = promo.id; user_id = user_id; activated_at = now } ∷ [];
        shop = persist_reward user_id pending db.shop;
      },
      ok promo,
    )
unfolding commit create_activation
commit-open now promo user_id pending db room own = ground arith

-- A reading of the promocode that limits it to n activations at most.
abbrev pub IsLimited : ℕ → ℕ → Promocode → Type 0
IsLimited id n promo = promo.id ≡ id → (m : ℕ) × (promo.max_activations ≡ some m) × (m ≤ n)

count-commit :
    (id n : ℕ) (c : Commit) (db : Db)
    → IsLimited id n c.promo
    → get_activations_count id (commit c.at c.promo c.user_id c.pending db).0
      ≤ max n (get_activations_count id db)
unfolding get_activations_count
count-commit id n c db limited = elim (commit-cases c.at c.promo c.user_id c.pending db) [
  | inl (e, refused) ↦ rw refused (omega arith)
  | inr (open_yet, own, done) ↦
      rw (done, count-append (λ a. a.promocode_id == id) db.activations _)
        (elim (Bool-cases (c.promo.id == id)) [
          | inr other ↦ ground arith
          | inl same ↦ let (m, bound, below) = limited (==→eq c.promo.id id same) in ground arith
        ])
]

-- However many users redeem a promocode at the same time, and whatever limits (n or less) it had
-- when each of them was validated, its activations never exceed n, or what they were before.
pub limit_holds :
    (id n : ℕ) (commits : List Commit) (db : Db)
    → All (λ c. IsLimited id n c.promo) commits
    → get_activations_count id (commit_all commits db) ≤ max n (get_activations_count id db)
unfolding commit_all
limit_holds id n [] db limited = omega arith
limit_holds id n (c ∷ commits) db (first, rest) =
    let now = count-commit id n c db first in
    let later = limit_holds id n commits (commit c.at c.promo c.user_id c.pending db).0 rest in
    omega arith

redeemed-commit :
    (id user_id : ℕ) (c : Commit) (db : Db)
    → (c.promo.id ≡ id → c.promo.is_reusable ≡ false)
    → redeemed_by id user_id (commit c.at c.promo c.user_id c.pending db).0
      ≤ max 1 (redeemed_by id user_id db)
unfolding redeemed_by get_activation_by_user
redeemed-commit id user_id c db single = elim (commit-cases c.at c.promo c.user_id c.pending db) [
  | inl (e, refused) ↦ rw refused (omega arith)
  | inr (open_yet, own, done) ↦
      rw (done, count-append (λ a. a.promocode_id == id && a.user_id == user_id) db.activations _)
        (elim (Bool-cases (c.promo.id == id && c.user_id == user_id)) [
          | inr other ↦ ground arith
          | inl same ↦
              let once = single (ground arith) in
              let absent : get_activation_by_user c.promo.id c.user_id db ≡ none =
                elim (Option-cases (get_activation_by_user c.promo.id c.user_id db)) [
                  | inl none_yet ↦ none_yet
                  | inr (a, there) ↦ absurd (ground arith)
                ] in
              ground (
                arith,
                count-none (λ a. a.promocode_id == id && a.user_id == user_id) db.activations,
              )
        ])
]

-- A promocode that is not reusable is redeemed once by a user at most, however many activations run
-- at the same time, if it was not redeemed more than once before.
pub redeemed_once :
    (id user_id : ℕ) (commits : List Commit) (db : Db)
    → All (λ c. c.promo.id ≡ id → c.promo.is_reusable ≡ false) commits
    → redeemed_by id user_id db ≤ 1
    → redeemed_by id user_id (commit_all commits db) ≤ 1
unfolding commit_all
redeemed_once id user_id [] db single once = once
redeemed_once id user_id (c ∷ commits) db (first, rest) once =
    redeemed_once id user_id commits (commit c.at c.promo c.user_id c.pending db).0 rest
      (let now = redeemed-commit id user_id c db first in omega arith)
