-- ===== src/Subscription/Model.antt =====
-- The data of subscriptions and plans (src/application/dto/subscription.py,
-- src/application/dto/plan.py, src/core/enums.py).
use remnashop.Prelude.{ℕ, Time, Text, Bool, ◌&&◌, Option, List, ◌==◌, ltb, if◌then◌else◌}

-- `SubscriptionStatus`
pub data Status : Type 0 where
  active disabled limited expired deleted : Status

abbrev status_code : Status → ℕ
status_code active = 0
status_code disabled = 1
status_code limited = 2
status_code expired = 3
status_code deleted = 4

abbrev pub status_eq : Status → Status → Bool
status_eq s t = status_code s == status_code t

-- `PlanType`
pub data PlanType : Type 0 where
  traffic devices both unlimited : PlanType

-- `PurchaseType`
pub data PurchaseType : Type 0 where
  new renew change : PurchaseType

-- the panel's `TrafficLimitStrategy`
pub data TrafficLimitStrategy : Type 0 where
  no_reset day week month month_rolling : TrafficLimitStrategy

-- `PlanSnapshotDto`
pub record PlanSnapshot : Type 0 where
  pub id : ℕ
  pub name : Text
  pub tag : Option Text
  pub type : PlanType
  pub traffic_limit_strategy : TrafficLimitStrategy
  pub traffic_limit : ℕ
  pub device_limit : ℕ
  pub duration : ℕ
  pub internal_squads : List Text
  pub external_squad : Option Text
  pub is_trial : Bool

-- `SubscriptionDto`
pub record Subscription : Type 0 where
  pub id : ℕ
  pub user_id : ℕ
  pub user_remna_id : Text
  pub status : Status
  pub is_trial : Bool
  pub disabled_by_channel_leave : Bool
  pub traffic_limit : ℕ
  pub device_limit : ℕ
  pub traffic_limit_strategy : TrafficLimitStrategy
  pub tag : Option Text
  pub internal_squads : List Text
  pub external_squad : Option Text
  pub expire_at : Time
  pub url : Text
  pub plan_snapshot : PlanSnapshot
  pub device_single_reset_at : Option Time
  pub device_all_reset_at : Option Time
  pub link_reset_at : Option Time
  pub grace_until : Option Time

-- the fields of the panel's user that the use cases read
pub record RemnaUser : Type 0 where
  pub uuid : Text
  pub status : Status
  pub expire_at : Time
  pub subscription_url : Text

-- `current_status`, at an instant
unfoldable pub current_status : Time → Subscription → Status
current_status now s = if ltb s.expire_at now then expired else s.status

unfoldable pub is_active : Time → Subscription → Bool
unfolding current_status
is_active now s = status_eq (current_status now s) active

-- `limits_to_plan_type` and the property `limit_type`
unfoldable pub limits_to_plan_type : ℕ → ℕ → PlanType
limits_to_plan_type traffic_limit device_limit =
    let has_traffic = ltb 0 traffic_limit in
    let has_devices = ltb 0 device_limit in
    if has_traffic && has_devices
    then both
    else if has_traffic
    then traffic
    else if has_devices
    then devices
    else unlimited
