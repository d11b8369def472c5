-- ===== src/Subscription/Tests.antt =====
-- Purchases and trials in a concrete shop.
use remnashop.Prelude.{
  ℕ, ◌+◌, ◌*◌, ◌/◌, sym, ap, ◌∙◌, ◌≤◌, ◌≡◌, refl, Time, true, false, Option, none, some, List, [],
  ◌∷◌, arith, days, inr, ◌⊎◌,
}
use remnashop.Prelude.Result.{ok, err}
use remnashop.Subscription.Model.{
  is_active, PlanSnapshot, Subscription, RemnaUser, new, renew, active, traffic, no_reset,
}
use remnashop.Subscription.Calendar.{Calendar}
use remnashop.Subscription.Store.{
  User, Shop, get_user, get_current, current_of, update, set_purchase_discount,
}
use remnashop.Prelude.Tables.{find_where, update_where}
use native.Mathlib.Nat.{mul-div_cancel}
use remnashop.Subscription.Purchase.{PanelCall, purchase, build_subscription, panel_failed, renewed}
use remnashop.Subscription.Purchase.Renewal.{
  IsRenewal, paid_time_is_added, Paid, pay_all, every_paid_day_counts, granted_days,
}
use remnashop.Subscription.Purchase.Outcome.{purchase_outcome, discount_is_spent}
use remnashop.Subscription.Purchase.Due.{due_result, planned_call}
use remnashop.Subscription.Purchase.Replacement.{
  IsReplacement, change_keeps_link, IsFirst, new_subscriber,
}
use remnashop.Subscription.Grace.{GraceSettings, enter_grace, payment_ends_grace}
use remnashop.Subscription.Trial.Once.{ShopCall, activate, buy, late_trials}

abbrev year_of : Time → ℕ
year_of t = t / 31536000000000

some_injective : (a b : ℕ) → some a ≡ some b → a ≡ b
some_injective a b e = cc e

-- a calendar whose years have 365 days, of which a changed date keeps none
abbrev calendar : Calendar
calendar = record {
  year = λ t. t / 31536000000000;
  replace_year = λ y t. some (y * 31536000000000);
  replace_year_clamped = λ y t. y * 31536000000000;
  year-replace_year =
      λ y t u e. ap year_of (some_injective _ _ (sym e)) ∙ mul-div_cancel y (omega arith);
  year-replace_year_clamped = λ y t. mul-div_cancel y (omega arith);
}

abbrev monthly : PlanSnapshot
monthly = record {
  id = 4;
  name = 40;
  tag = none;
  type = traffic;
  traffic_limit_strategy = no_reset;
  traffic_limit = 100;
  device_limit = 0;
  duration = 30;
  internal_squads = 1 ∷ [];
  external_squad = none;
  is_trial = false;
}

abbrev remna : RemnaUser
remna = record { uuid = 700; status = active; expire_at = 5000; subscription_url = 701 }

abbrev owned : Subscription
owned = record (build_subscription remna monthly false) { id = 1; user_id = 7 }

abbrev trial : Subscription
trial = record owned { is_trial = true }

abbrev alice : User
alice = record {
  id = 7;
  current_subscription_id = some 1;
  is_trial_available = true;
  personal_discount = 0;
  purchase_discount = 20;
}

abbrev shop_of : Subscription → Shop
shop_of s = record {
  users = alice ∷ [];
  subscriptions = s ∷ [];
  next_subscription_id = 2;
  referred = [];
}

abbrev newcomer : User
newcomer = record alice { current_subscription_id = none }

abbrev empty_shop : Shop
empty_shop = record {
  users = newcomer ∷ [];
  subscriptions = [];
  next_subscription_id = 1;
  referred = [];
}

abbrev answers : PanelCall → RemnaUser
answers call = remna

abbrev respond : PanelCall → Option RemnaUser
respond call = some (answers call)

abbrev silent : PanelCall → Option RemnaUser
silent call = none

paid_time_is_added_example :
    (t : Subscription) × ((purchase calendar respond 9000 alice renew monthly (shop_of owned)).1
      ≡ ok tt)
    × (get_current 7 (purchase calendar respond 9000 alice renew monthly (shop_of owned)).0
        ≡ some t)
    × IsRenewal 9000 30 monthly owned t
unfolding get_current build_subscription find_where current_of
paid_time_is_added_example =
    paid_time_is_added calendar respond 9000 alice renew monthly (shop_of owned) owned remna refl
      refl refl refl refl refl

abbrev twice : List Paid
twice =
    record { at = 100; user = alice; type = new; plan = monthly; respond = respond }
    ∷ record { at = 150; user = alice; type = renew; plan = monthly; respond = silent }
    ∷ record { at = 200; user = alice; type = renew; plan = monthly; respond = respond }
    ∷ []

every_paid_day_counts_example :
    (t : Subscription) × (get_current 7 (pay_all calendar twice (shop_of owned)) ≡ some t)
    × (5000 + days (granted_days calendar twice (shop_of owned)) ≤ t.expire_at)
unfolding get_current build_subscription find_where current_of
every_paid_day_counts_example =
    every_paid_day_counts calendar 7 twice (shop_of owned) owned refl refl refl refl
      ((refl, refl, refl), ((refl, refl, refl), ((refl, refl, refl), tt)))

twice_days : granted_days calendar twice (shop_of owned) ≡ 60
unfolding granted_days get_current find_where current_of renewed update set_purchase_discount
    update_where
twice_days = refl

purchase_outcome_example :
    ((purchase calendar silent 9000 alice renew monthly (shop_of owned)).1 ≡ err panel_failed)
    × (((purchase calendar silent 9000 alice renew monthly (shop_of owned)).1 ≡ ok tt)
        ⊎ ((purchase calendar silent 9000 alice renew monthly (shop_of owned)).0 ≡ shop_of owned))
unfolding due_result planned_call get_current find_where current_of build_subscription
purchase_outcome_example = purchase_outcome calendar silent 9000 alice renew monthly (shop_of owned)

discount_is_spent_example :
    (v : User) × (get_user 7 (purchase calendar respond 9000 alice renew monthly (shop_of owned)).0
      ≡ some v)
    × (v.purchase_discount ≡ 0)
unfolding purchase get_user get_current find_where current_of
discount_is_spent_example =
    discount_is_spent calendar respond 9000 alice renew monthly (shop_of owned) refl refl

change_keeps_link_example :
    (t : Subscription) × ((purchase calendar respond 9000 alice new monthly (shop_of trial)).1
      ≡ ok tt)
    × (get_current 7 (purchase calendar respond 9000 alice new monthly (shop_of trial)).0 ≡ some t)
    × IsReplacement remna monthly trial t
unfolding get_current build_subscription find_where current_of
change_keeps_link_example =
    change_keeps_link calendar respond 9000 alice new monthly (shop_of trial) trial remna refl refl
      (inr refl) refl

new_subscriber_example :
    (t : Subscription) × (v : User) × ((purchase calendar respond 9000 newcomer new monthly
        empty_shop).1
      ≡ ok tt)
    × (get_current 7 (purchase calendar respond 9000 newcomer new monthly empty_shop).0 ≡ some t)
    × (get_user 7 (purchase calendar respond 9000 newcomer new monthly empty_shop).0 ≡ some v)
    × IsFirst remna monthly 7 1 t v
unfolding get_current get_user find_where current_of
new_subscriber_example =
    new_subscriber calendar respond 9000 newcomer monthly empty_shop newcomer remna refl refl tt
      refl

-- a double click: both activations have loaded the user with the flag set
-- a purchase and two trials after it, each with the row that was loaded before
abbrev clicks : List ShopCall
clicks =
    buy calendar respond 100 newcomer new monthly
    ∷ activate (some remna) newcomer monthly
    ∷ activate (some remna) newcomer monthly
    ∷ []

double_click : late_trials 7 true (activate (some remna) newcomer monthly ∷ []) empty_shop ≡ 1
unfolding late_trials update_where
double_click = refl

abbrev three_days : GraceSettings
three_days = record {
  enabled = true;
  duration_days = 3;
  internal_squads = [];
  external_squad = none;
  traffic_mb = 100;
  traffic_strategy = no_reset;
  tag = none;
}

payment_ends_grace_example :
    (v : Subscription) × (get_current 7
        (purchase calendar respond 7000 alice renew monthly
          (enter_grace calendar (λ call. true) 6000 three_days 7 (shop_of owned)).0).0
      ≡ some v)
    × (v.expire_at ≡ 7000 + days 30)
    × (v.grace_until ≡ none)
    × (is_active 7000 v ≡ true)
unfolding get_current find_where current_of build_subscription enter_grace
payment_ends_grace_example =
    payment_ends_grace calendar respond (λ call. true) 6000 three_days (shop_of owned) owned
      (6000 + days 3) 7000 alice renew monthly remna refl refl refl refl refl refl
