-- ===== src/Promocode/Activate.antt =====
-- `ActivatePromocode` and `PromocodeDao.create_activation`
-- (src/application/use_cases/promocode/commands/activate.py,
-- src/infrastructure/database/dao/promocode.py). The first half validates and calls the panel; the
-- second is one transaction, which holds the promocode's row. Other users' transactions may run
-- between the halves; those of the same user wait for the subscription lock.
use remnashop.Prelude.{ℕ, Time, Text, Json, Option, [], ◌∷◌, ◌++◌, if◌then◌else◌}
use remnashop.Prelude.Result.{Result, ok, err, ◌>>=◌}
use remnashop.Subscription.Model.{PlanSnapshot, RemnaUser}
use remnashop.Subscription.Calendar.{Calendar}
use remnashop.Subscription.Store.{get_current}
use remnashop.Subscription.Purchase.{PanelCall}
use remnashop.Promocode.Model.{
  Promocode, Db, PromocodeError, limit_reached, already_activated, get_activations_count,
  get_activation_by_user,
}
use remnashop.Promocode.Validate.{is_exhausted, is_redeemed, validate}
use remnashop.Promocode.Reward.{PendingReward, apply_reward_remote, persist_reward}

-- `create_activation`, with the limit and the reusability of the promocode that was validated
unfoldable pub create_activation : Time → Promocode → ℕ → Db → Db × Result PromocodeError Unit
unfolding get_activations_count get_activation_by_user
create_activation now promo user_id db =
    if is_exhausted promo.max_activations (get_activations_count promo.id db)
    then (db, err limit_reached)
    else if is_redeemed promo (get_activation_by_user promo.id user_id db)
    then (db, err already_activated)
    else (
      record db {
        activations =
            db.activations
            ++ record { promocode_id = promo.id; user_id = user_id; activated_at = now } ∷ [];
      },
      ok tt,
    )

-- the transaction; it is rolled back if `create_activation` raises
unfoldable pub commit :
    Time → Promocode → ℕ → PendingReward → Db → Db × Result PromocodeError Promocode
unfolding create_activation persist_reward
commit now promo user_id pending db =
    let (activated, result) = create_activation now promo user_id db in
    elim result [
      | err e ↦ (db, err e)
      | ok _ ↦ (record activated { shop = persist_reward user_id pending activated.shop }, ok promo)
    ]

module _ (calendar : Calendar) (strip upper : Text → Text) (load : Json → Option PlanSnapshot)
    (respond : PanelCall → Option RemnaUser) where
  -- the half before the transaction
  unfoldable pub prepare : Time → Text → ℕ → Db → Result PromocodeError (Promocode × PendingReward)
  unfolding validate apply_reward_remote
  prepare now code user_id db = do
    promo ← validate calendar strip upper now code user_id db
    pending ← apply_reward_remote calendar load respond now promo (get_current user_id db.shop)
    ok (promo, pending)

  -- both halves, with nothing in between
  unfoldable pub activate : Time → Text → ℕ → Db → Db × Result PromocodeError Promocode
  unfolding prepare commit
  activate now code user_id db = elim (prepare now code user_id db) [
    | err e ↦ (db, err e)
    | ok (promo, pending) ↦ commit now promo user_id pending db
  ]
