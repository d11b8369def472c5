-- ===== src/Promocode/Tests.antt =====
-- Promocodes in a concrete shop.
use remnashop.Prelude.{
  ℕ, ◌+◌, ◌*◌, ◌/◌, ◌≤◌, ◌≡◌, ◌↔◌, refl, sym, ap, ◌∙◌, Time, Text, Json, true, false, Option, none,
  some, List, [], ◌∷◌, arith, days, max,
}
use remnashop.Prelude.Result.{ok}
use remnashop.Prelude.Tables.{find_where, count_where}
use remnashop.Subscription.Model.{
  PlanSnapshot, Subscription, RemnaUser, active, both, no_reset, is_active,
}
use remnashop.Subscription.Calendar.{Calendar}
use remnashop.Subscription.Store.{User, get_current, current_of}
use remnashop.Subscription.Purchase.{PanelCall}
use remnashop.Promocode.Model.{
  duration, everyone, Promocode, Db, get_by_code, get_activations_count, get_activation_by_user,
}
use remnashop.Promocode.Validate.{validate}
use remnashop.Promocode.Reward.{no_reward}
use remnashop.Promocode.Activate.{activate}
use remnashop.Promocode.Limits.{Commit, commit_all, redeemed_by, limit_holds, redeemed_once}
use remnashop.Promocode.Redemption.{IsRedeemable, validate_iff_IsRedeemable}
use remnashop.Promocode.Accepted.{duration_reward}
use remnashop.Promocode.Model.{purchase_discount, subscription}
use native.Mathlib.Nat.{mul-div_cancel}

abbrev year_of : Time → ℕ
year_of t = t / 31536000000000

some_injective : (a b : ℕ) → some a ≡ some b → a ≡ b
some_injective a b e = cc e

-- a calendar whose years have 365 days, of which a changed date keeps none
abbrev calendar : Calendar
calendar = record {
  year = year_of;
  replace_year = λ y t. some (y * 31536000000000);
  replace_year_clamped = λ y t. y * 31536000000000;
  year-replace_year =
      λ y t u e. ap year_of (some_injective _ _ (sym e)) ∙ mul-div_cancel y (omega arith);
  year-replace_year_clamped = λ y t. mul-div_cancel y (omega arith);
}

abbrev plan : PlanSnapshot
plan = record {
  id = 4;
  name = 40;
  tag = none;
  type = both;
  traffic_limit_strategy = no_reset;
  traffic_limit = 100;
  device_limit = 3;
  duration = 30;
  internal_squads = 1 ∷ [];
  external_squad = none;
  is_trial = false;
}

abbrev owned : Subscription
owned = record {
  id = 1;
  user_id = 7;
  user_remna_id = 700;
  status = active;
  is_trial = false;
  disabled_by_channel_leave = false;
  traffic_limit = 100;
  device_limit = 3;
  traffic_limit_strategy = no_reset;
  tag = none;
  internal_squads = 1 ∷ [];
  external_squad = none;
  expire_at = 5000;
  url = 701;
  plan_snapshot = plan;
  device_single_reset_at = none;
  device_all_reset_at = none;
  link_reset_at = none;
  grace_until = none;
}

abbrev alice : User
alice = record {
  id = 7;
  current_subscription_id = some 1;
  is_trial_available = false;
  personal_discount = 0;
  purchase_discount = 0;
}

-- ten days for everyone, twice
abbrev ten_days : Promocode
ten_days = record {
  id = 3;
  code = 55;
  is_active = true;
  reward_type = duration;
  reward = some 10;
  plan_snapshot = none;
  availability = everyone;
  expires_at = some 8000;
  max_activations = some 2;
  is_reusable = false;
}

abbrev db : Db
db = record {
  promocodes = ten_days ∷ [];
  activations = [];
  shop = record {
    users = alice ∷ [];
    subscriptions = owned ∷ [];
    next_subscription_id = 2;
    referred = [];
  };
}

abbrev same : Text → Text
same t = t

abbrev load : Json → Option PlanSnapshot
load j = some plan

abbrev panel_user : RemnaUser
panel_user = record { uuid = 700; status = active; expire_at = 9000; subscription_url = 701 }

abbrev respond : PanelCall → Option RemnaUser
respond call = some panel_user

abbrev silent : PanelCall → Option RemnaUser
silent call = none

redeemable : IsRedeemable calendar 4000 ten_days 7 db
unfolding get_activations_count get_activation_by_user get_current current_of find_where count_where
    is_active
redeemable = record {
  switched_on = refl;
  in_time = omega arith;
  has_room = omega arith;
  unused = λ single. refl;
  extends = (refl, refl, λ e. absurd (ground arith));
  for_user = tt;
}

validate_iff_IsRedeemable_example :
    (validate calendar same same 4000 55 7 db ≡ ok ten_days)
    ↔ ((get_by_code 55 db ≡ some ten_days) × IsRedeemable calendar 4000 ten_days 7 db)
validate_iff_IsRedeemable_example =
    validate_iff_IsRedeemable calendar same same 4000 55 7 db ten_days

-- a quarter off the next purchase, once
abbrev quarter_off : Promocode
quarter_off = record ten_days { reward_type = purchase_discount; reward = some 25 }

abbrev quarter_db : Db
quarter_db = record db { promocodes = quarter_off ∷ [] }

-- a plan for a user who has no subscription
abbrev newcomer : User
newcomer = record alice { current_subscription_id = none }

abbrev gift : Promocode
gift = record ten_days { reward_type = subscription; reward = none; plan_snapshot = some 60 }

abbrev gift_db : Db
gift_db = record {
  promocodes = gift ∷ [];
  activations = [];
  shop = record {
    users = newcomer ∷ [];
    subscriptions = [];
    next_subscription_id = 1;
    referred = [];
  };
}

duration_reward_example :
    ((activate calendar same same load respond 4000 55 7 db).1 ≡ ok ten_days)
    × (get_current 7 (activate calendar same same load respond 4000 55 7 db).0.shop
        ≡ some (record owned { expire_at = 5000 + days 10 }))
unfolding get_by_code find_where get_current current_of
duration_reward_example =
    duration_reward calendar same same load respond 4000 55 7 10 db ten_days owned
      (record { uuid = 700; status = active; expire_at = 9000; subscription_url = 701 }) refl
      redeemable refl refl refl refl refl refl

-- three users at once, for two activations
abbrev rush : List Commit
rush =
    record { at = 1; promo = ten_days; user_id = 7; pending = no_reward }
    ∷ record { at = 2; promo = ten_days; user_id = 8; pending = no_reward }
    ∷ record { at = 3; promo = ten_days; user_id = 9; pending = no_reward }
    ∷ []

two_of_three : get_activations_count 3 (commit_all rush db) ≡ 2
unfolding commit_all get_activations_count count_where find_where
two_of_three = refl

limit_holds_example :
    get_activations_count 3 (commit_all rush db) ≤ max 2 (get_activations_count 3 db)
limit_holds_example =
    limit_holds 3 2 rush db (
      λ e. (2, refl, omega arith),
      (λ e. (2, refl, omega arith), (λ e. (2, refl, omega arith), tt)),
    )

redeemed_once_example : redeemed_by 3 7 (commit_all rush db) ≤ 1
unfolding redeemed_by count_where
redeemed_once_example =
    redeemed_once 3 7 rush db (λ e. refl, (λ e. refl, (λ e. refl, tt))) (omega arith)
