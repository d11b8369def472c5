-- ===== src/Subscription/Purchase.antt =====
-- `PurchaseSubscription` (src/application/use_cases/subscription/commands/purchase.py): a paid
-- transaction becomes a subscription. The panel's answer to the one call that a purchase makes is
-- an argument, none where it raises; the work in `async with self.uow` is kept only if nothing
-- raises. The use case holds the user's subscription lock, so it runs as one step.
pub mod Lookup
pub mod Renewal
pub mod Due
pub mod Outcome
pub mod Replacement
use remnashop.Prelude.{
  ℕ, zero, ◌+◌, max, Time, Bool, true, false, not, ◌&&◌, ◌||◌, Option, none, some, ◌==◌, ltb,
  if◌then◌else◌, is_null, days,
}
use remnashop.Prelude.Result.{Result, ok, err}
use remnashop.Subscription.Model.{
  PlanSnapshot, Subscription, RemnaUser, PurchaseType, new, renew, change, active,
}
use remnashop.Subscription.Calendar.{Calendar, days_to_datetime}
use remnashop.Subscription.Store.{
  User, Shop, get_current, create, update, set_trial_available, set_purchase_discount,
}

-- the `ValueError`s, and an exception of the panel's client
pub data PurchaseError : Type 0 where
  no_subscription_to_renew no_subscription_to_change unknown_purchase_type panel_failed :
      PurchaseError

-- what is sent to the panel: a new user of a plan, a plan for a user, or a subscription's fields
pub data PanelCall : Type 0 where
  create_user : PlanSnapshot → PanelCall
  update_plan : PlanSnapshot → PanelCall
  update_subscription : Subscription → PanelCall

-- `_build_subscription_dto`; the other fields take the defaults of `SubscriptionDto`
unfoldable pub build_subscription : RemnaUser → PlanSnapshot → Bool → Subscription
build_subscription remna plan is_trial = record {
  id = 0;
  user_id = 0;
  user_remna_id = remna.uuid;
  status = remna.status;
  is_trial = is_trial;
  disabled_by_channel_leave = false;
  traffic_limit = plan.traffic_limit;
  device_limit = plan.device_limit;
  traffic_limit_strategy = plan.traffic_limit_strategy;
  tag = plan.tag;
  internal_squads = plan.internal_squads;
  external_squad = plan.external_squad;
  expire_at = remna.expire_at;
  url = remna.subscription_url;
  plan_snapshot = plan;
  device_single_reset_at = none;
  device_all_reset_at = none;
  link_reset_at = none;
  grace_until = none;
}

-- `if user.purchase_discount`, on the user that the caller loaded
unfoldable pub spend_discount : User → Shop → Shop
spend_discount user shop =
    if user.purchase_discount == 0 then shop else set_purchase_discount user.id 0 shop

-- the row after a change: the panel's user with the plan, under the id and the URL that were there
unfoldable pub changed : RemnaUser → PlanSnapshot → Subscription → Subscription
changed remna plan s = record s {
  status = remna.status;
  is_trial = plan.is_trial;
  traffic_limit = plan.traffic_limit;
  device_limit = plan.device_limit;
  traffic_limit_strategy = plan.traffic_limit_strategy;
  tag = plan.tag;
  internal_squads = plan.internal_squads;
  external_squad = plan.external_squad;
  expire_at = remna.expire_at;
  plan_snapshot = plan;
  grace_until = none;
}

abbrev pub is_new : PurchaseType → Bool
is_new new = true
is_new _ = false

abbrev pub is_renew_or_new : PurchaseType → Bool
is_renew_or_new change = false
is_renew_or_new _ = true

abbrev pub is_change : PurchaseType → Bool
is_change change = true
is_change _ = false

module _ (calendar : Calendar) where
  -- the expiry that a renewal gives
  unfoldable pub renewed_expiry : Time → ℕ → Subscription → Time
  unfolding days_to_datetime
  renewed_expiry now duration s =
      if duration == 0
      then days_to_datetime calendar duration now
      else (if is_null s.grace_until then max s.expire_at now else now) + days duration

  -- the row as it is sent to the panel
  unfoldable pub renewed : Time → PlanSnapshot → Subscription → Subscription
  unfolding renewed_expiry
  renewed now plan s = record s {
    expire_at = renewed_expiry now plan.duration s;
    device_limit = plan.device_limit;
    traffic_limit = plan.traffic_limit;
    traffic_limit_strategy = plan.traffic_limit_strategy;
    tag = plan.tag;
    internal_squads = plan.internal_squads;
    external_squad = plan.external_squad;
    grace_until = none;
    status = active;
  }

module _ (respond : PanelCall → Option RemnaUser) where
  -- 1. a new purchase without a subscription
  unfoldable pub purchase_new : User → PlanSnapshot → Shop → Shop × Result PurchaseError Unit
  unfolding build_subscription spend_discount
  purchase_new user plan shop = elim (respond (create_user plan)) [
    | none ↦ (shop, err panel_failed)
    | some remna ↦ (
      spend_discount user (
          set_trial_available user.id false
            (create (build_subscription remna plan plan.is_trial) user.id shop)),
      ok tt,
    )
  ]

  -- 3. a change of plan, or the conversion of a trial
  unfoldable pub purchase_change :
      User → PlanSnapshot → Subscription → Shop → Shop × Result PurchaseError Unit
  unfolding changed spend_discount
  purchase_change user plan s shop = elim (respond (update_plan plan)) [
    | none ↦ (shop, err panel_failed)
    | some remna ↦ (spend_discount user (update (changed remna plan s) shop), ok tt)
  ]

module _ (calendar : Calendar) (respond : PanelCall → Option RemnaUser) where
  -- 2. a renewal, or a NEW payment that was confirmed after the subscription was there
  unfoldable pub purchase_renew :
      Time → User → PlanSnapshot → Subscription → Shop → Shop × Result PurchaseError Unit
  unfolding renewed spend_discount
  purchase_renew now user plan s shop =
      let sent = renewed calendar now plan s in
      elim (respond (update_subscription sent)) [
        | none ↦ (shop, err panel_failed)
        | some _ ↦ (spend_discount user (update (record sent { plan_snapshot = plan }) shop), ok tt)
      ]

  -- the three cases, with the subscription that was read again under the lock
  unfoldable pub purchase_with :
      Time
      → User
      → PurchaseType
      → PlanSnapshot
      → Option Subscription
      → Shop
      → Shop × Result PurchaseError Unit
  unfolding purchase_new purchase_renew purchase_change
  purchase_with now user type plan none shop =
      if is_new type
      then purchase_new respond user plan shop
      else if is_renew_or_new type
      then (shop, err no_subscription_to_renew)
      else if is_change type
      then (shop, err no_subscription_to_change)
      else (shop, err unknown_purchase_type)
  purchase_with now user type plan (some s) shop =
      if is_renew_or_new type && not s.is_trial
      then purchase_renew now user plan s shop
      else if is_change type || s.is_trial
      then purchase_change respond user plan s shop
      else (shop, err unknown_purchase_type)

  unfoldable pub purchase :
      Time → User → PurchaseType → PlanSnapshot → Shop → Shop × Result PurchaseError Unit
  unfolding purchase_with
  purchase now user type plan shop =
      purchase_with now user type plan (get_current user.id shop) shop
