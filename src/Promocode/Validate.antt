-- ===== src/Promocode/Validate.antt =====
-- `ValidatePromocode` (src/application/use_cases/promocode/queries/validate.py). Python's
-- `str.strip` and `str.upper` are arguments.
use remnashop.Prelude.{
  ℕ, Time, Text, Bool, true, false, not, ◌&&◌, Option, none, some, ◌==◌, ltb, leb, if◌then◌else◌,
  is_not_null,
}
use remnashop.Prelude.Result.{Result, ok, err, ◌>>◌}
use remnashop.Subscription.Model.{Subscription, is_active}
use remnashop.Subscription.Calendar.{Calendar, unlimited_expire_year}
use remnashop.Subscription.Store.{Shop, get_current, has_any_subscription, is_invited_user}
use remnashop.Promocode.Model.{
  RewardType, duration, traffic, devices, Activation, Availability, everyone, new, existing,
  invited, Promocode, Db, PromocodeError, not_found, expired, limit_reached, already_activated,
  subscription_required, trial_not_eligible, already_unlimited, new_users_only, existing_users_only,
  invited_users_only, get_by_code, get_activations_count, get_activation_by_user,
}

-- `if test: raise error`
abbrev pub raise_if : Bool → PromocodeError → Result PromocodeError Unit
raise_if true error = err error
raise_if false error = ok tt

-- `SUBSCRIPTION_REQUIRED_REWARDS`
abbrev pub requires_subscription : RewardType → Bool
requires_subscription duration = true
requires_subscription traffic = true
requires_subscription devices = true
requires_subscription _ = false

abbrev pub is_duration : RewardType → Bool
is_duration duration = true
is_duration _ = false

-- `expires_at is not None and datetime_now() > expires_at`
abbrev pub has_expired : Option Time → Time → Bool
has_expired none now = false
has_expired (some t) now = ltb t now

-- `max_activations is not None and count >= max_activations`
abbrev pub is_exhausted : Option ℕ → ℕ → Bool
is_exhausted none count = false
is_exhausted (some n) count = leb n count

-- `not is_reusable` and `existing`
abbrev pub is_redeemed : Promocode → Option Activation → Bool
is_redeemed promo existing_one = not promo.is_reusable && is_not_null existing_one

-- `_check_availability`
unfoldable pub check_availability : Availability → ℕ → Shop → Result PromocodeError Unit
unfolding has_any_subscription is_invited_user
check_availability everyone user_id shop = ok tt
check_availability new user_id shop =
    raise_if (has_any_subscription user_id false shop) new_users_only
check_availability existing user_id shop =
    raise_if (not (has_any_subscription user_id false shop)) existing_users_only
check_availability invited user_id shop =
    raise_if (not (is_invited_user user_id shop)) invited_users_only

module _ (calendar : Calendar) where
  open calendar use {year}

  -- `_is_resource_unlimited`
  abbrev pub is_resource_unlimited : RewardType → Subscription → Bool
  is_resource_unlimited duration s = year s.expire_at == unlimited_expire_year
  is_resource_unlimited traffic s = s.traffic_limit == 0
  is_resource_unlimited devices s = s.device_limit == 0
  is_resource_unlimited _ s = false

  -- `_check_subscription_requirements`, on the current subscription
  unfoldable pub check_subscription_requirements :
      Time → RewardType → Option Subscription → Result PromocodeError Unit
  unfolding is_active
  check_subscription_requirements now type none = err subscription_required
  check_subscription_requirements now type (some s) = do
    raise_if (not (is_active now s)) subscription_required
    raise_if (is_duration type && s.is_trial) trial_not_eligible
    raise_if (is_resource_unlimited type s) already_unlimited

  -- the checks of a promocode that was found
  unfoldable pub check_promocode : Time → Promocode → ℕ → Db → Result PromocodeError Unit
  unfolding check_subscription_requirements check_availability get_activations_count
      get_activation_by_user
  check_promocode now promo user_id db = do
    raise_if (not promo.is_active) not_found
    raise_if (has_expired promo.expires_at now) expired
    raise_if (is_exhausted promo.max_activations (get_activations_count promo.id db)) limit_reached
    raise_if (is_redeemed promo (get_activation_by_user promo.id user_id db)) already_activated
    if requires_subscription promo.reward_type
        then check_subscription_requirements now promo.reward_type (get_current user_id db.shop)
        else ok tt
    check_availability promo.availability user_id db.shop

  module _ (strip upper : Text → Text) where
    unfoldable pub validate : Time → Text → ℕ → Db → Result PromocodeError Promocode
    unfolding check_promocode get_by_code
    validate now code user_id db = elim (get_by_code (upper (upper (strip code))) db) [
      | none ↦ err not_found
      | some promo ↦ check_promocode now promo user_id db >> ok promo
    ]
