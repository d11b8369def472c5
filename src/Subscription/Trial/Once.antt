-- ===== src/Subscription/Trial/Once.antt =====
-- Trials and purchases in any order (`ActivateTrialSubscription` and `PurchaseSubscription` of
-- src/application/use_cases/subscription/commands/purchase.py).
use remnashop.Prelude.{
  ℕ, ◌+◌, Time, Bool, true, false, ◌&&◌, Option, List, [], ◌∷◌, ◌==◌, if◌then◌else◌, ◌||◌, is_null,
}
use remnashop.Prelude.Result.{Result, ok, err}
use remnashop.Subscription.Model.{PlanSnapshot, RemnaUser, PurchaseType}
use remnashop.Subscription.Calendar.{Calendar}
use remnashop.Subscription.Store.{User, Shop, get_current}
use remnashop.Subscription.Purchase.{PanelCall, purchase, is_new}
use remnashop.Subscription.Trial.{activate_trial}

-- a call of either use case, with the panel's answers
pub data ShopCall : Type 0 where
  activate : Option RemnaUser → User → PlanSnapshot → ShopCall
  buy :
      Calendar
      → (PanelCall → Option RemnaUser)
      → Time
      → User
      → PurchaseType
      → PlanSnapshot
      → ShopCall

is_ok : {E : Type 0} → Result E Unit → Bool
is_ok (ok u) = true
is_ok (err e) = false

-- The shop after a call, and whether the call succeeded.
unfoldable pub serve : ShopCall → Shop → Shop × Bool
unfolding activate_trial purchase is_ok
serve (activate answer user plan) shop =
    let (after, result) = activate_trial answer user plan shop in (after, is_ok result)
serve (buy calendar respond now user type plan) shop =
    let (after, result) = purchase calendar respond now user type plan shop in (after, is_ok result)

-- a trial activation for the user of the id
abbrev pub is_activation : ℕ → ShopCall → Bool
is_activation id (activate answer user plan) = user.id == id
is_activation id (buy calendar respond now user type plan) = false

-- a call that, where it succeeds, gives the user of the id a new row: a trial activation, or a NEW
-- purchase while the user has no current subscription
abbrev pub is_start : ℕ → ShopCall → Shop → Bool
is_start id (activate answer user plan) shop = user.id == id
is_start id (buy calendar respond now user type plan) shop =
    user.id == id && is_new type && is_null (get_current user.id shop)

-- The trial activations of a user that succeed after a call has started a subscription for the user;
-- `started` says whether one has before the calls.
unfoldable pub late_trials : ℕ → Bool → List ShopCall → Shop → ℕ
unfolding serve
late_trials id started [] shop = 0
late_trials id started (call ∷ calls) shop =
    let (after, done) = serve call shop in
    let rest = late_trials id (started || (done && is_start id call shop)) calls after in
    if started && done && is_activation id call then rest + 1 else rest
