-- ===== src/Promocode/Model.antt =====
-- The data of promocodes and the reads of `PromocodeDao` (src/application/dto/promocode.py,
-- src/core/enums.py, src/infrastructure/database/models/promocode.py,
-- src/infrastructure/database/dao/promocode.py).
use remnashop.Prelude.{ℕ, Time, Text, Json, Bool, ◌&&◌, Option, List, ◌==◌}
use remnashop.Prelude.Tables.{find_where, count_where}
use remnashop.Subscription.Store.{Shop}

-- `PromocodeRewardType`
pub data RewardType : Type 0 where
  duration traffic devices subscription personal_discount purchase_discount : RewardType

-- `PromocodeAvailability`
pub data Availability : Type 0 where
  everyone new existing invited : Availability

-- `PromocodeDto`; a snapshot of none is None or the empty dict, which the code treats alike
pub record Promocode : Type 0 where
  pub id : ℕ
  pub code : Text
  pub is_active : Bool
  pub reward_type : RewardType
  pub reward : Option ℕ
  pub plan_snapshot : Option Json
  pub availability : Availability
  pub expires_at : Option Time
  pub max_activations : Option ℕ
  pub is_reusable : Bool

-- `PromocodeActivationDto`
pub record Activation : Type 0 where
  pub promocode_id : ℕ
  pub user_id : ℕ
  pub activated_at : Time

-- the tables that the use cases read and write
pub record Db : Type 0 where
  pub promocodes : List Promocode
  pub activations : List Activation
  pub shop : Shop

-- the errors of validation, of activation, and those of the panel and of the snapshot's loader
pub data PromocodeError : Type 0 where
  not_found expired limit_reached already_activated : PromocodeError
  subscription_required trial_not_eligible already_unlimited : PromocodeError
  new_users_only existing_users_only invited_users_only : PromocodeError
  panel_failed snapshot_invalid : PromocodeError

-- `get_by_code`, of a code that is in upper case
unfoldable pub get_by_code : Text → Db → Option Promocode
get_by_code code db = find_where (λ p. p.code == code) db.promocodes

unfoldable pub get_activations_count : ℕ → Db → ℕ
get_activations_count promocode_id db =
    count_where (λ a. a.promocode_id == promocode_id) db.activations

unfoldable pub get_activation_by_user : ℕ → ℕ → Db → Option Activation
get_activation_by_user promocode_id user_id db =
    find_where (λ a. a.promocode_id == promocode_id && a.user_id == user_id) db.activations
