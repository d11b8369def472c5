-- ===== src/Promocode/Reward.antt =====
-- The rewards of `ActivatePromocode` (src/application/use_cases/promocode/commands/activate.py): the
-- calls of the panel, before the transaction, and what is to be written after them. The panel's
-- answer and the loader of plan snapshots (adaptix) are arguments, none where they raise.
use remnashop.Prelude.{ℕ, ◌+◌, Time, Json, false, Option, none, some, ◌==◌, if◌then◌else◌, days}
use remnashop.Prelude.Result.{Result, ok, err}
use remnashop.Subscription.Model.{PlanSnapshot, Subscription, RemnaUser}
use remnashop.Subscription.Calendar.{Calendar, days_to_datetime}
use remnashop.Subscription.Store.{
  Shop, create, update, set_personal_discount, set_purchase_discount,
}
use remnashop.Subscription.Purchase.{
  PanelCall, create_user, update_plan, update_subscription, build_subscription,
}
use remnashop.Promocode.Model.{
  duration, traffic, devices, subscription, personal_discount, purchase_discount, Promocode,
  PromocodeError, panel_failed, snapshot_invalid,
}

-- the discount that `user_update` carries
pub data UserUpdate : Type 0 where
  personal : ℕ → UserUpdate
  purchase : ℕ → UserUpdate

-- `_PendingReward`
pub record PendingReward : Type 0 where
  pub subscription_update : Option Subscription
  pub subscription_create : Option Subscription
  pub user_update : Option UserUpdate

abbrev pub no_reward : PendingReward
no_reward = record { subscription_update = none; subscription_create = none; user_update = none }

abbrev pub updating : Subscription → PendingReward
updating s = record no_reward { subscription_update = some s }

-- the subscription after a SUBSCRIPTION reward; grace period and trial flag are left as they are
unfoldable pub with_plan : RemnaUser → PlanSnapshot → Subscription → Subscription
with_plan remna plan s = record s {
  status = remna.status;
  traffic_limit = plan.traffic_limit;
  device_limit = plan.device_limit;
  traffic_limit_strategy = plan.traffic_limit_strategy;
  tag = plan.tag;
  internal_squads = plan.internal_squads;
  external_squad = plan.external_squad;
  expire_at = remna.expire_at;
  url = remna.subscription_url;
  plan_snapshot = plan;
}

-- `_apply_personal_discount` and `_apply_purchase_discount`: `not reward` holds of None and of 0
abbrev pub apply_discount : (ℕ → UserUpdate) → Option ℕ → PendingReward
apply_discount kind none = no_reward
apply_discount kind (some n) =
    if n == 0 then no_reward else record no_reward { user_update = some (kind n) }

unfoldable pub with_traffic : ℕ → Subscription → Subscription
with_traffic n s = record s { traffic_limit = if n == 0 then 0 else s.traffic_limit + n }

unfoldable pub with_devices : ℕ → Subscription → Subscription
with_devices n s = record s { device_limit = if n == 0 then 0 else s.device_limit + n }

module _ (calendar : Calendar) where
  -- the subscription that `_apply_duration`, `_apply_traffic` and `_apply_devices` send
  unfoldable pub extended : Time → ℕ → Subscription → Subscription
  unfolding days_to_datetime
  extended now n s = record s {
    expire_at = if n == 0 then days_to_datetime calendar 0 now else s.expire_at + days n;
  }

module _ (respond : PanelCall → Option RemnaUser) where
  unfoldable pub send : Subscription → Result PromocodeError PendingReward
  send s = elim (respond (update_subscription s)) [
    | none ↦ err panel_failed
    | some _ ↦ ok (updating s)
  ]

  -- nothing without a subscription or without an amount
  unfoldable pub apply_amount :
      (ℕ → Subscription → Subscription)
      → Option ℕ
      → Option Subscription
      → Result PromocodeError PendingReward
  unfolding send
  apply_amount change reward none = ok no_reward
  apply_amount change none (some s) = ok no_reward
  apply_amount change (some n) (some s) = send (change n s)

  -- `_apply_subscription`, of a plan that was loaded
  unfoldable pub apply_plan :
      PlanSnapshot → Option Subscription → Result PromocodeError PendingReward
  unfolding with_plan build_subscription
  apply_plan plan none = elim (respond (create_user plan)) [
    | none ↦ err panel_failed
    | some remna ↦
        ok (record no_reward { subscription_create = some (build_subscription remna plan false) })
  ]
  apply_plan plan (some s) = elim (respond (update_plan plan)) [
    | none ↦ err panel_failed
    | some remna ↦ ok (updating (with_plan remna plan s))
  ]

module _ (load : Json → Option PlanSnapshot) (respond : PanelCall → Option RemnaUser) where
  unfoldable pub apply_subscription :
      Option Json → Option Subscription → Result PromocodeError PendingReward
  unfolding apply_plan
  apply_subscription none current = ok no_reward
  apply_subscription (some snapshot) current = elim (load snapshot) [
    | none ↦ err snapshot_invalid
    | some plan ↦ apply_plan respond plan current
  ]

module _ (calendar : Calendar) (load : Json → Option PlanSnapshot)
    (respond : PanelCall → Option RemnaUser) where
  -- `_apply_reward_remote`
  unfoldable pub apply_reward_remote :
      Time → Promocode → Option Subscription → Result PromocodeError PendingReward
  unfolding apply_amount apply_subscription extended with_traffic with_devices
  apply_reward_remote now promo current = elim promo.reward_type [
    | duration ↦ apply_amount respond (extended calendar now) promo.reward current
    | traffic ↦ apply_amount respond with_traffic promo.reward current
    | devices ↦ apply_amount respond with_devices promo.reward current
    | subscription ↦ apply_subscription load respond promo.plan_snapshot current
    | personal_discount ↦ ok (apply_discount personal promo.reward)
    | purchase_discount ↦ ok (apply_discount purchase promo.reward)
  ]

-- `_persist_reward`
update_pending : Option Subscription → Shop → Shop
unfolding update
update_pending none shop = shop
update_pending (some s) shop = update s shop

create_pending : Option Subscription → ℕ → Shop → Shop
unfolding create
create_pending none user_id shop = shop
create_pending (some s) user_id shop = create s user_id shop

update_discount : Option UserUpdate → ℕ → Shop → Shop
unfolding set_personal_discount set_purchase_discount
update_discount none user_id shop = shop
update_discount (some (personal n)) user_id shop = set_personal_discount user_id n shop
update_discount (some (purchase n)) user_id shop = set_purchase_discount user_id n shop

unfoldable pub persist_reward : ℕ → PendingReward → Shop → Shop
unfolding update_pending create_pending update_discount
persist_reward user_id pending shop = update_discount pending.user_update user_id (
    create_pending pending.subscription_create user_id
      (update_pending pending.subscription_update shop))
