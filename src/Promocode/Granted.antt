-- ===== src/Promocode/Granted.antt =====
-- The rewards that need no subscription (`ActivatePromocode`:
-- src/application/use_cases/promocode/commands/activate.py).
use remnashop.Prelude.{ℕ, Text, Json, Bool, true, false, Option}
use remnashop.Subscription.Model.{PlanSnapshot, RemnaUser, Subscription}
use remnashop.Subscription.Calendar.{Calendar}
use remnashop.Subscription.Store.{User}
use remnashop.Subscription.Purchase.{PanelCall}
use remnashop.Promocode.Model.{RewardType, personal_discount, purchase_discount, Promocode}
use remnashop.Promocode.Reward.{UserUpdate, personal, purchase}

-- the user's row with a discount of n percent of the kind that a promocode gives
abbrev pub with_discount_of : RewardType → ℕ → User → User
with_discount_of personal_discount n u = record u { personal_discount = n }
with_discount_of purchase_discount n u = record u { purchase_discount = n }
with_discount_of _ n u = u

abbrev pub is_discount : RewardType → Bool
is_discount personal_discount = true
is_discount purchase_discount = true
is_discount _ = false

module _ (calendar : Calendar) (strip upper : Text → Text) (load : Json → Option PlanSnapshot)
    (respond : PanelCall → Option RemnaUser) where
  discount_kind : RewardType → ℕ → UserUpdate
  discount_kind personal_discount n = personal n
  discount_kind _ n = purchase n
