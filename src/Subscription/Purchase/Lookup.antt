-- ===== src/Subscription/Purchase/Lookup.antt =====
-- What the reads of a user and of the current subscription return after the writes of
-- `PurchaseSubscription` (src/application/use_cases/subscription/commands/purchase.py).
use remnashop.Prelude.{
  ℕ, ◌≡◌, refl, ap, sym, ==→eq, ==-refl, ◌∙◌, false, some, ◌==◌, eq_col, if◌then◌else◌, arith,
  Bool-cases, Option-cases, inl, inr,
}
use remnashop.Prelude.Tables.{find_where}
use remnashop.Prelude.Tables.Laws.{find-update_where, find-update_where_if}
use remnashop.Subscription.Model.{Subscription}
use remnashop.Subscription.Store.{
  User, Shop, get_user, get_current, current_of, update_user, set_purchase_discount, update,
}
use remnashop.Subscription.Purchase.{spend_discount}

pub get_user-update_user :
    (id user_id : ℕ) (set : User → User) (shop : Shop) (u : User)
    → ((x : User) → (set x).id ≡ x.id)
    → get_user id shop ≡ some u
    → get_user id (update_user user_id set shop) ≡ some (if u.id == user_id then set u else u)
unfolding get_user update_user
get_user-update_user id user_id set shop u keeps h =
    find-update_where (λ x. x.id == id) (λ x. x.id == user_id) set
      (λ x. ap (λ (n : ℕ). n == id) (keeps x)) shop.users u h

-- the user of a current subscription
get_current-user :
    (id : ℕ) (shop : Shop) (s : Subscription)
    → get_current id shop ≡ some s
    → (u : User) × (get_user id shop ≡ some u)
      × (find_where (λ x. eq_col u.current_subscription_id x.id) shop.subscriptions ≡ some s)
unfolding get_current current_of
get_current-user id shop s h = elim (Option-cases (get_user id shop)) [
  | inl absent ↦ absurd (ground arith)
  | inr (u, there) ↦ (u, there, ground arith)
]

pub get_current-found :
    (id : ℕ) (shop : Shop) (u : User) (s : Subscription)
    → get_user id shop ≡ some u
    → find_where (λ x. eq_col u.current_subscription_id x.id) shop.subscriptions ≡ some s
    → get_current id shop ≡ some s
unfolding get_current current_of
get_current-found id shop u s there found = ground arith

pub get_current-update_user :
    (id user_id : ℕ) (set : User → User) (shop : Shop) (s : Subscription)
    → ((x : User) → (set x).id ≡ x.id)
    → ((x : User) → (set x).current_subscription_id ≡ x.current_subscription_id)
    → get_current id shop ≡ some s
    → get_current id (update_user user_id set shop) ≡ some s
unfolding update_user
get_current-update_user id user_id set shop s keeps_id keeps h =
    let (u, there, found) = get_current-user id shop s h in
    elim (Bool-cases (u.id == user_id)) [
      | inl t ↦
          get_current-found id (update_user user_id set shop) (set u) s
            (get_user-update_user id user_id set shop u keeps_id there ∙ rw t refl)
            (rw (keeps u) found)
      | inr f ↦
          get_current-found id (update_user user_id set shop) u s
            (get_user-update_user id user_id set shop u keeps_id there ∙ rw f refl) found
    ]

pub get_current-spend_discount :
    (id : ℕ) (user : User) (shop : Shop) (s : Subscription)
    → get_current id shop ≡ some s
    → get_current id (spend_discount user shop) ≡ some s
unfolding spend_discount set_purchase_discount
get_current-spend_discount id user shop s h = elim (Bool-cases (user.purchase_discount == 0)) [
  | inl t ↦ rw t h
  | inr f ↦ rw f (get_current-update_user id user.id _ shop s (λ x. refl) (λ x. refl) h)
]

pub get_current-update :
    (id : ℕ) (shop : Shop) (s t : Subscription)
    → (s.id == 0) ≡ false
    → t.id ≡ s.id
    → get_current id shop ≡ some s
    → get_current id (update t shop) ≡ some t
unfolding update get_user
get_current-update id shop s t stored same h =
    let (u, there, found) = get_current-user id shop s h in
    let nonzero : (t.id == 0) ≡ false = rw same stored in
    rw (nonzero, update)
      (get_current-found id _ u t there (
        find-update_where_if (λ x. eq_col u.current_subscription_id x.id) (λ x. x.id == t.id)
          (λ _. t) (λ x e. ap (eq_col u.current_subscription_id) (sym (==→eq x.id t.id e)))
          shop.subscriptions s found
        ∙ rw (same, ==-refl s.id) refl))

pub get_user-spend_discount :
    (id : ℕ) (user : User) (shop : Shop) (u : User)
    → get_user id shop ≡ some u
    → (v : User) × (get_user id (spend_discount user shop) ≡ some v)
      × (v.is_trial_available ≡ u.is_trial_available)
unfolding spend_discount set_purchase_discount
get_user-spend_discount id user shop u h = elim (Bool-cases (user.purchase_discount == 0)) [
  | inl t ↦ (u, rw t h, refl)
  | inr f ↦ elim (Bool-cases (u.id == user.id)) [
    | inl own ↦ (
      record u { purchase_discount = 0 },
      rw f (get_user-update_user id user.id _ shop u (λ x. refl) h ∙ rw own refl),
      refl,
    )
    | inr other ↦
        (u, rw f (get_user-update_user id user.id _ shop u (λ x. refl) h ∙ rw other refl), refl)
  ]
]
