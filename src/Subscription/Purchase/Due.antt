-- ===== src/Subscription/Purchase/Due.antt =====
-- The result that a purchase should have, by the call that it should make to the panel
-- (`PurchaseSubscription`: src/application/use_cases/subscription/commands/purchase.py).
use remnashop.Prelude.{
  ◌≡◌, refl, Time, true, false, Option, none, some, Option-cases, inl, inr, if◌then◌else◌, Bool,
  not,
}
use remnashop.Prelude.Result.{Result, ok, err}
use remnashop.Subscription.Model.{
  PlanSnapshot, Subscription, RemnaUser, PurchaseType, new, renew, change,
}
use remnashop.Subscription.Calendar.{Calendar}
use remnashop.Subscription.Store.{User, Shop}
use remnashop.Subscription.Purchase.{
  PanelCall, PurchaseError, create_user, update_plan, update_subscription, renewed, purchase_new,
  purchase_change, purchase_renew, purchase_with, no_subscription_to_renew,
  no_subscription_to_change, panel_failed,
}

module _ (calendar : Calendar) where
  -- what the use case asks of the panel, or why it asks nothing, by the type of the purchase and the
  -- current subscription
  unfoldable pub planned_call :
      Time → PurchaseType → PlanSnapshot → Option Subscription → Result PurchaseError PanelCall
  planned_call now new plan none = ok (create_user plan)
  planned_call now renew plan none = err no_subscription_to_renew
  planned_call now change plan none = err no_subscription_to_change
  planned_call now change plan (some s) = ok (update_plan plan)
  planned_call now type plan (some s) =
      if s.is_trial
      then ok (update_plan plan)
      else ok (update_subscription (renewed calendar now plan s))

module _ (respond : PanelCall → Option RemnaUser) where
  -- the result that is due: without a call its reason, else by whether the panel answers the call
  unfoldable pub due_result : Result PurchaseError PanelCall → Result PurchaseError Unit
  due_result (err e) = err e
  due_result (ok call) = elim (respond call) [ none ↦ err panel_failed | some remna ↦ ok tt ]

  new-due :
      (user : User) (plan : PlanSnapshot) (shop : Shop)
      → (purchase_new respond user plan shop).1 ≡ due_result (ok (create_user plan))
  unfolding purchase_new due_result
  new-due user plan shop = elim (Option-cases (respond (create_user plan))) [
    | inl e ↦ rw (e, purchase_new, due_result) refl
    | inr (remna, e) ↦ rw (e, purchase_new, due_result) refl
  ]

  change-due :
      (user : User) (plan : PlanSnapshot) (s : Subscription) (shop : Shop)
      → (purchase_change respond user plan s shop).1 ≡ due_result (ok (update_plan plan))
  unfolding purchase_change due_result
  change-due user plan s shop = elim (Option-cases (respond (update_plan plan))) [
    | inl e ↦ rw (e, purchase_change, due_result) refl
    | inr (remna, e) ↦ rw (e, purchase_change, due_result) refl
  ]

module _ (calendar : Calendar) (respond : PanelCall → Option RemnaUser) where
  renew-due :
      (now : Time) (user : User) (plan : PlanSnapshot) (s : Subscription) (shop : Shop)
      → (purchase_renew calendar respond now user plan s shop).1
        ≡ due_result respond (ok (update_subscription (renewed calendar now plan s)))
  unfolding purchase_renew due_result
  renew-due now user plan s shop =
      elim (Option-cases (respond (update_subscription (renewed calendar now plan s)))) [
        | inl e ↦ rw (e, purchase_renew, due_result) refl
        | inr (remna, e) ↦ rw (e, purchase_renew, due_result) refl
      ]

  -- the choice between a renewal and the conversion of a trial
  either-due :
      (b : Bool) (x y z : Shop × Result PurchaseError Unit) (renewal conversion : PanelCall)
      → x.1 ≡ due_result respond (ok renewal)
      → y.1 ≡ due_result respond (ok conversion)
      → (if not b then x else if b then y else z).1
        ≡ due_result respond (if b then ok conversion else ok renewal)
  either-due true x y z renewal conversion p q = q
  either-due false x y z renewal conversion p q = p

  pub purchase_with-due :
      (now : Time) (user : User) (type : PurchaseType) (plan : PlanSnapshot)
      (current : Option Subscription) (shop : Shop)
      → (purchase_with calendar respond now user type plan current shop).1
        ≡ due_result respond (planned_call calendar now type plan current)
  unfolding purchase_with planned_call due_result
  purchase_with-due now user new plan none shop = new-due respond user plan shop
  purchase_with-due now user renew plan none shop = refl
  purchase_with-due now user change plan none shop = refl
  purchase_with-due now user change plan (some s) shop = change-due respond user plan s shop
  purchase_with-due now user new plan (some s) shop =
      either-due s.is_trial _ _ _ _ _ (renew-due now user plan s shop)
        (change-due respond user plan s shop)
  purchase_with-due now user renew plan (some s) shop =
      either-due s.is_trial _ _ _ _ _ (renew-due now user plan s shop)
        (change-due respond user plan s shop)
