-- ===== src/Subscription/Trial/Spent.antt =====
-- The writes that keep or spend a trial (src/application/use_cases/subscription/commands/purchase.py).
use remnashop.Prelude.{
  ℕ, ◌≡◌, ◌⊎◌, refl, Time, Bool, true, false, not, ◌&&◌, Option, none, some, List, [], ◌∷◌, ◌==◌,
  if◌then◌else◌, arith, All, Bool-cases, Option-cases, inl, inr,
}
use remnashop.Prelude.Result.{ok, err}
use remnashop.Prelude.Tables.{update_where}
use remnashop.Prelude.Tables.Laws.{All-update_where}
use remnashop.Subscription.Model.{
  PlanSnapshot, Subscription, RemnaUser, PurchaseType, new, renew, change,
}
use remnashop.Subscription.Calendar.{Calendar}
use remnashop.Subscription.Store.{
  User, Shop, update_user, set_trial_available, claim_trial, set_purchase_discount, create, update,
}
use remnashop.Subscription.Purchase.{
  PanelCall, spend_discount, purchase_new, purchase_renew, purchase_change, purchase_with,
  create_user, update_plan, update_subscription, renewed, build_subscription,
}
use remnashop.Subscription.Trial.{
  activate_trial, TrialError, not_available, already_activated, panel_failed,
}

-- the trial of a user is spent: no row of that id has the flag
abbrev pub IsSpent : ℕ → Shop → Type 0
IsSpent id shop = All (λ u. (u.id == id && u.is_trial_available) ≡ false) shop.users

IsSpent-update_user :
    (id user_id : ℕ) (set : User → User) (shop : Shop)
    → ((u : User)
        → (u.id == id && u.is_trial_available) ≡ false
        → ((set u).id == id && (set u).is_trial_available) ≡ false)
    → IsSpent id shop
    → IsSpent id (update_user user_id set shop)
unfolding update_user
IsSpent-update_user id user_id set shop keep spent =
    All-update_where _ _ set (λ u t p. keep u p) shop.users spent

pub IsSpent-create :
    (id user_id : ℕ) (s : Subscription) (shop : Shop)
    → IsSpent id shop
    → IsSpent id (create s user_id shop)
unfolding create
IsSpent-create id user_id s shop spent = All-update_where _ _ _ (λ u t p. p) shop.users spent

IsSpent-update :
    (id : ℕ) (s : Subscription) (shop : Shop) → IsSpent id shop → IsSpent id (update s shop)
unfolding update
IsSpent-update id s shop spent = elim (Bool-cases (s.id == 0)) [
  | inl e ↦ rw e spent
  | inr e ↦ rw e spent
]

pub IsSpent-spend_discount :
    (id : ℕ) (user : User) (shop : Shop) → IsSpent id shop → IsSpent id (spend_discount user shop)
unfolding spend_discount set_purchase_discount
IsSpent-spend_discount id user shop spent = elim (Bool-cases (user.purchase_discount == 0)) [
  | inl e ↦ rw e spent
  | inr e ↦ rw e (IsSpent-update_user id user.id _ shop (λ u p. p) spent)
]

IsSpent-set_trial_available :
    (id user_id : ℕ) (shop : Shop)
    → IsSpent id shop
    → IsSpent id (set_trial_available user_id false shop)
unfolding set_trial_available
IsSpent-set_trial_available id user_id shop spent =
    IsSpent-update_user id user_id _ shop (λ u p. ground arith) spent

IsSpent-purchase_new :
    (respond : PanelCall → Option RemnaUser) (id : ℕ) (user : User) (plan : PlanSnapshot)
    (shop : Shop)
    → IsSpent id shop
    → IsSpent id (purchase_new respond user plan shop).0
unfolding purchase_new
IsSpent-purchase_new respond id user plan shop spent =
    elim (Option-cases (respond (create_user plan))) [
      | inl e ↦ rw (e, purchase_new) spent
      | inr (remna, e) ↦
          rw (e, purchase_new)
            (IsSpent-spend_discount id user _
              (IsSpent-set_trial_available id user.id _ (IsSpent-create id user.id _ shop spent)))
    ]

IsSpent-purchase_change :
    (respond : PanelCall → Option RemnaUser) (id : ℕ) (user : User) (plan : PlanSnapshot)
    (s : Subscription) (shop : Shop)
    → IsSpent id shop
    → IsSpent id (purchase_change respond user plan s shop).0
unfolding purchase_change
IsSpent-purchase_change respond id user plan s shop spent =
    elim (Option-cases (respond (update_plan plan))) [
      | inl e ↦ rw (e, purchase_change) spent
      | inr (remna, e) ↦
          rw (e, purchase_change)
            (IsSpent-spend_discount id user _ (IsSpent-update id _ shop spent))
    ]

-- the renewal or the change of plan, by whether the subscription is a trial
IsSpent-either :
    (id : ℕ) (b : Bool) {E : Type 0} (x y z : Shop × E)
    → IsSpent id x.0
    → IsSpent id y.0
    → IsSpent id (if not b then x else if b then y else z).0
IsSpent-either id true x y z p q = q
IsSpent-either id false x y z p q = p

module _ (calendar : Calendar) (respond : PanelCall → Option RemnaUser) where
  IsSpent-purchase_renew :
      (id : ℕ) (now : Time) (user : User) (plan : PlanSnapshot) (s : Subscription) (shop : Shop)
      → IsSpent id shop
      → IsSpent id (purchase_renew calendar respond now user plan s shop).0
  unfolding purchase_renew
  IsSpent-purchase_renew id now user plan s shop spent =
      elim (Option-cases (respond (update_subscription (renewed calendar now plan s)))) [
        | inl e ↦ rw (e, purchase_renew) spent
        | inr (remna, e) ↦
            rw (e, purchase_renew)
              (IsSpent-spend_discount id user _ (IsSpent-update id _ shop spent))
      ]

  pub IsSpent-purchase_with :
      (id : ℕ) (now : Time) (user : User) (type : PurchaseType) (plan : PlanSnapshot)
      (current : Option Subscription) (shop : Shop)
      → IsSpent id shop
      → IsSpent id (purchase_with calendar respond now user type plan current shop).0
  unfolding purchase_with
  IsSpent-purchase_with id now user new plan none shop spent =
      IsSpent-purchase_new respond id user plan shop spent
  IsSpent-purchase_with id now user renew plan none shop spent = spent
  IsSpent-purchase_with id now user change plan none shop spent = spent
  IsSpent-purchase_with id now user change plan (some s) shop spent =
      IsSpent-purchase_change respond id user plan s shop spent
  IsSpent-purchase_with id now user new plan (some s) shop spent =
      IsSpent-either id s.is_trial _ _ _ (IsSpent-purchase_renew id now user plan s shop spent)
        (IsSpent-purchase_change respond id user plan s shop spent)
  IsSpent-purchase_with id now user renew plan (some s) shop spent =
      IsSpent-either id s.is_trial _ _ _ (IsSpent-purchase_renew id now user plan s shop spent)
        (IsSpent-purchase_change respond id user plan s shop spent)

pub claim-spends :
    (id user_id : ℕ) (users : List User)
    → (user_id == id) ≡ true
    → All
        (λ u. (u.id == id && u.is_trial_available) ≡ false)
        (update_where
          (λ u. u.id == user_id && u.is_trial_available)
          (λ u. record u { is_trial_available = false })
          users).0
unfolding update_where
claim-spends id user_id [] same = tt
claim-spends id user_id (u ∷ users) same =
    elim (Bool-cases (u.id == user_id && u.is_trial_available)) [
      | inl t ↦ rw t (ground arith, claim-spends id user_id users same)
      | inr f ↦ rw f (ground arith, claim-spends id user_id users same)
    ]

pub spent-unclaimed :
    (id user_id : ℕ) (users : List User)
    → (user_id == id) ≡ true
    → All (λ u. (u.id == id && u.is_trial_available) ≡ false) users
    → (update_where
        (λ u. u.id == user_id && u.is_trial_available)
        (λ u. record u { is_trial_available = false })
        users).1
      ≡ 0
unfolding update_where
spent-unclaimed id user_id [] same spent = refl
spent-unclaimed id user_id (u ∷ users) same spent =
    ground (arith, spent.0, spent-unclaimed id user_id users same spent.1)

-- what an activation does: nothing but an error, or a claim and a new subscription
pub activate-cases :
    (answer : Option RemnaUser) (user : User) (plan : PlanSnapshot) (shop : Shop)
    → ((e : TrialError) × (activate_trial answer user plan shop ≡ (shop, err e)))
      ⊎ ((s : Subscription) × ((claim_trial user.id shop).1 ≡ true)
          × (activate_trial answer user plan shop
              ≡ (create s user.id (claim_trial user.id shop).0, ok tt)))
unfolding activate_trial
activate-cases answer user plan shop = elim (Bool-cases user.is_trial_available) [
  | inr f ↦ inl (not_available, ground arith)
  | inl t ↦ elim (Bool-cases (claim_trial user.id shop).1) [
    | inr g ↦ inl (already_activated, ground arith)
    | inl c ↦ elim (Option-cases answer) [
      | inl e ↦ inl (panel_failed, ground arith)
      | inr (remna, e) ↦ inr (build_subscription remna plan true, c, ground arith)
    ]
  ]
]
