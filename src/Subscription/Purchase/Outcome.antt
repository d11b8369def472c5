-- ===== src/Subscription/Purchase/Outcome.antt =====
-- The outcomes of `PurchaseSubscription`, on every branch
-- (src/application/use_cases/subscription/commands/purchase.py).
use remnashop.Prelude.{
  ℕ, suc, ◌++◌, ◌≡◌, ◌⊎◌, refl, ◌∙◌, Time, true, false, Option, none, some, [], ◌∷◌, ◌==◌, arith,
  Bool-cases, Option-cases, inl, inr,
}
use remnashop.Prelude.Result.{Result, ok, err}
use remnashop.Prelude.Tables.Laws.{find-selected}
use remnashop.Subscription.Model.{
  PlanSnapshot, Subscription, RemnaUser, PurchaseType, new, renew, change,
}
use remnashop.Subscription.Calendar.{Calendar}
use remnashop.Subscription.Store.{
  User, Shop, get_user, get_current, update_user, set_purchase_discount, set_trial_available,
  create, update,
}
use remnashop.Subscription.Purchase.{
  PanelCall, PurchaseError, create_user, update_plan, update_subscription, renewed, purchase_new,
  purchase_change, purchase_renew, purchase_with, purchase, spend_discount,
  no_subscription_to_renew, no_subscription_to_change, panel_failed, changed, build_subscription,
}
use remnashop.Subscription.Purchase.Lookup.{get_user-update_user}
use remnashop.Subscription.Purchase.Due.{planned_call, due_result, purchase_with-due}

-- a write that keeps every user's discounts
abbrev KeepsDiscounts : Shop → Shop → Type 0
KeepsDiscounts shop mid =
    (id : ℕ) (u : User)
    → get_user id shop ≡ some u
    → (v : User) × (get_user id mid ≡ some v) × (v.purchase_discount ≡ u.purchase_discount)

-- a run that the panel stopped, or one that wrote something and spent the discount last
abbrev IsAnswered : User → Shop → Shop × Result PurchaseError Unit → Type 0
IsAnswered user shop r =
    (r ≡ (shop, err panel_failed))
    ⊎ ((mid : Shop) × KeepsDiscounts shop mid × (r ≡ (spend_discount user mid, ok tt)))

KeepsDiscounts-update_user :
    (user_id : ℕ) (set : User → User) (shop : Shop)
    → ((x : User) → (set x).id ≡ x.id)
    → ((x : User) → (set x).purchase_discount ≡ x.purchase_discount)
    → KeepsDiscounts shop (update_user user_id set shop)
KeepsDiscounts-update_user user_id set shop keeps_id keeps id u there =
    elim (Bool-cases (u.id == user_id)) [
      | inl t ↦
          (set u, get_user-update_user id user_id set shop u keeps_id there ∙ rw t refl, keeps u)
      | inr f ↦ (u, get_user-update_user id user_id set shop u keeps_id there ∙ rw f refl, refl)
    ]

KeepsDiscounts-update : (s : Subscription) (shop : Shop) → KeepsDiscounts shop (update s shop)
unfolding update get_user
KeepsDiscounts-update s shop id u there = elim (Bool-cases (s.id == 0)) [
  | inl t ↦ rw t (u, there, refl)
  | inr f ↦ rw f (u, there, refl)
]

KeepsDiscounts-create :
    (s : Subscription) (user_id : ℕ) (shop : Shop)
    → KeepsDiscounts shop (set_trial_available user_id false (create s user_id shop))
unfolding create set_trial_available get_user
KeepsDiscounts-create s user_id shop id u there =
    let stored : Shop = record shop {
      subscriptions =
          shop.subscriptions ++ record s { id = shop.next_subscription_id; user_id = user_id } ∷ [];
      next_subscription_id = suc shop.next_subscription_id;
    } in
    let (v, found, same) =
      KeepsDiscounts-update_user user_id _ stored (λ x. refl) (λ x. refl) id u there in
    let (w, last, again) =
      KeepsDiscounts-update_user user_id _ (create s user_id shop) (λ x. refl) (λ x. refl) id v
        found in
    (w, last, again ∙ same)

purchase_new-IsAnswered :
    (respond : PanelCall → Option RemnaUser) (user : User) (plan : PlanSnapshot) (shop : Shop)
    → IsAnswered user shop (purchase_new respond user plan shop)
unfolding purchase_new
purchase_new-IsAnswered respond user plan shop = elim (Option-cases (respond (create_user plan))) [
  | inl e ↦ inl (rw (e, purchase_new) refl)
  | inr (remna, e) ↦ inr (
    _,
    KeepsDiscounts-create (build_subscription remna plan plan.is_trial) user.id shop,
    rw (e, purchase_new) refl,
  )
]

purchase_change-IsAnswered :
    (respond : PanelCall → Option RemnaUser) (user : User) (plan : PlanSnapshot) (s : Subscription)
    (shop : Shop)
    → IsAnswered user shop (purchase_change respond user plan s shop)
unfolding purchase_change
purchase_change-IsAnswered respond user plan s shop =
    elim (Option-cases (respond (update_plan plan))) [
      | inl e ↦ inl (rw (e, purchase_change) refl)
      | inr (remna, e) ↦
          inr (_, KeepsDiscounts-update (changed remna plan s) shop, rw (e, purchase_change) refl)
    ]

module _ (calendar : Calendar) (respond : PanelCall → Option RemnaUser) where
  purchase_renew-IsAnswered :
      (now : Time) (user : User) (plan : PlanSnapshot) (s : Subscription) (shop : Shop)
      → IsAnswered user shop (purchase_renew calendar respond now user plan s shop)
  unfolding purchase_renew
  purchase_renew-IsAnswered now user plan s shop =
      elim (Option-cases (respond (update_subscription (renewed calendar now plan s)))) [
        | inl e ↦ inl (rw (e, purchase_renew) refl)
        | inr (remna, e) ↦ inr (
          _,
          KeepsDiscounts-update (record (renewed calendar now plan s) { plan_snapshot = plan })
              shop,
          rw (e, purchase_renew) refl,
        )
      ]

  purchase_with-some :
      (now : Time) (user : User) (type : PurchaseType) (plan : PlanSnapshot) (s : Subscription)
      (shop : Shop)
      → (purchase_with calendar respond now user type plan (some s) shop
          ≡ purchase_renew calendar respond now user plan s shop)
        ⊎ (purchase_with calendar respond now user type plan (some s) shop
            ≡ purchase_change respond user plan s shop)
  unfolding purchase_with
  purchase_with-some now user new plan s shop = elim (Bool-cases s.is_trial) [
    | inl t ↦ inr (ground arith)
    | inr f ↦ inl (ground arith)
  ]
  purchase_with-some now user renew plan s shop = elim (Bool-cases s.is_trial) [
    | inl t ↦ inr (ground arith)
    | inr f ↦ inl (ground arith)
  ]
  purchase_with-some now user change plan s shop = inr refl

  -- Every branch: without a subscription a renewal and a change are refused; else the panel decides.
  purchase_with-cases :
      (now : Time) (user : User) (type : PurchaseType) (plan : PlanSnapshot)
      (current : Option Subscription) (shop : Shop)
      → IsAnswered user shop (purchase_with calendar respond now user type plan current shop)
        ⊎ ((e : PurchaseError) × (purchase_with calendar respond now user type plan current shop
              ≡ (shop, err e)))
  unfolding purchase_with
  purchase_with-cases now user new plan none shop =
      inl (purchase_new-IsAnswered respond user plan shop)
  purchase_with-cases now user renew plan none shop = inr (no_subscription_to_renew, refl)
  purchase_with-cases now user change plan none shop = inr (no_subscription_to_change, refl)
  purchase_with-cases now user type plan (some s) shop =
      elim (purchase_with-some now user type plan s shop) [
        | inl e ↦ inl (rw e (purchase_renew-IsAnswered now user plan s shop))
        | inr e ↦ inl (rw e (purchase_change-IsAnswered respond user plan s shop))
      ]

  -- The outcome of every purchase, for every type, subscription and answer of the panel. A RENEW or a
  -- CHANGE without a current subscription raises its own error. Every other purchase makes one call
  -- to the panel: it creates a user for a NEW purchase without a subscription, sets the plan for a
  -- CHANGE or in place of a trial, and else sends the renewed subscription. It succeeds where the
  -- panel answers that call and raises the panel's error where not. A purchase that raises leaves
  -- the database as it was.
  pub purchase_outcome :
      (now : Time) (user : User) (type : PurchaseType) (plan : PlanSnapshot) (shop : Shop)
      → ((purchase calendar respond now user type plan shop).1
          ≡ due_result respond (planned_call calendar now type plan (get_current user.id shop)))
        × (((purchase calendar respond now user type plan shop).1 ≡ ok tt)
            ⊎ ((purchase calendar respond now user type plan shop).0 ≡ shop))
  unfolding purchase
  purchase_outcome now user type plan shop = (
    purchase_with-due calendar respond now user type plan (get_current user.id shop) shop,
    elim (purchase_with-cases now user type plan (get_current user.id shop) shop) [
      | inr (x, r) ↦ inr (rw r refl)
      | inl (inl r) ↦ inr (rw r refl)
      | inl (inr (mid, keeps, r)) ↦ inl (rw r refl)
    ],
  )

  -- After a purchase that succeeds, the discount on the next purchase of the user, who was loaded
  -- as stored, is 0: it is spent by one purchase.
  pub discount_is_spent :
      (now : Time) (user : User) (type : PurchaseType) (plan : PlanSnapshot) (shop : Shop)
      → get_user user.id shop ≡ some user
      → (purchase calendar respond now user type plan shop).1 ≡ ok tt
      → (v : User) × (get_user user.id (purchase calendar respond now user type plan shop).0
          ≡ some v)
        × (v.purchase_discount ≡ 0)
  unfolding purchase spend_discount set_purchase_discount get_user
  discount_is_spent now user type plan shop loaded done =
      elim (purchase_with-cases now user type plan (get_current user.id shop) shop) [
        | inr (x, r) ↦ absurd (cc (done, r))
        | inl (inl r) ↦ absurd (cc (done, r))
        | inl (inr (mid, keeps, r)) ↦
            let (v, there, same) = keeps user.id user loaded in
            let own : (v.id == user.id) ≡ true =
              find-selected (λ x. x.id == user.id) mid.users v there in
            elim (Bool-cases (user.purchase_discount == 0)) [
              | inl t ↦ (v, rw r (rw t there), ground arith)
              | inr f ↦ (
                record v { purchase_discount = 0 },
                rw r (
                    rw f (
                      get_user-update_user user.id user.id _ mid v (λ x. refl) there
                      ∙ rw own refl)),
                refl,
              )
            ]
      ]
