-- ===== src/Promocode/Accepted.antt =====
-- What an activation does (`ActivatePromocode`:
-- src/application/use_cases/promocode/commands/activate.py).
use remnashop.Prelude.{
  ℕ, ◌+◌, ◌≡◌, ◌++◌, ◌∷◌, [], refl, Time, Text, Json, false, Option, some, ◌==◌, days,
}
use remnashop.Prelude.Result.{ok}
use remnashop.Subscription.Model.{PlanSnapshot, Subscription, RemnaUser}
use remnashop.Subscription.Calendar.{Calendar}
use remnashop.Subscription.Store.{get_current}
use remnashop.Subscription.Purchase.{PanelCall, update_subscription}
use remnashop.Subscription.Purchase.Lookup.{get_current-update}
use remnashop.Promocode.Model.{
  duration, get_by_code, Promocode, Db, get_activations_count, get_activation_by_user,
}
use remnashop.Promocode.Redemption.{IsRedeemable, validate_iff_IsRedeemable, has_room, unused}
use remnashop.Promocode.Reward.{
  PendingReward, persist_reward, updating, extended, send, apply_amount, apply_reward_remote,
}
use remnashop.Promocode.Activate.{prepare, activate}
use remnashop.Promocode.Limits.{commit-open}

module _ (calendar : Calendar) (strip upper : Text → Text) (load : Json → Option PlanSnapshot)
    (respond : PanelCall → Option RemnaUser) where
  prepare-redeemable :
      (now : Time) (code : Text) (user_id : ℕ) (db : Db) (promo : Promocode)
      (pending : PendingReward)
      → get_by_code (upper (upper (strip code))) db ≡ some promo
      → IsRedeemable calendar now promo user_id db
      → apply_reward_remote calendar load respond now promo (get_current user_id db.shop)
        ≡ ok pending
      → prepare calendar strip upper load respond now code user_id db ≡ ok (promo, pending)
  unfolding prepare
  prepare-redeemable now code user_id db promo pending found redeemable applied =
      rw
        ((validate_iff_IsRedeemable calendar strip upper now code user_id db promo).1
          (found, redeemable))
        (rw applied refl)

  pub activate-redeemable :
      (now : Time) (code : Text) (user_id : ℕ) (db : Db) (promo : Promocode)
      (pending : PendingReward)
      → get_by_code (upper (upper (strip code))) db ≡ some promo
      → IsRedeemable calendar now promo user_id db
      → apply_reward_remote calendar load respond now promo (get_current user_id db.shop)
        ≡ ok pending
      → activate calendar strip upper load respond now code user_id db ≡ (
        record db {
          activations =
              db.activations
              ++ record { promocode_id = promo.id; user_id = user_id; activated_at = now } ∷ [];
          shop = persist_reward user_id pending db.shop;
        },
        ok promo,
      )
  unfolding activate
  activate-redeemable now code user_id db promo pending found redeemable applied =
      let prepared =
        prepare-redeemable now code user_id db promo pending found redeemable applied in
      rw (activate, prepared)
        (commit-open now promo user_id pending db
          ((has_room promo.max_activations (get_activations_count promo.id db)).1
            redeemable.has_room)
          ((unused promo (get_activation_by_user promo.id user_id db)).1 redeemable.unused))

  send-answered :
      (s : Subscription) (remna : RemnaUser)
      → respond (update_subscription s) ≡ some remna
      → send respond s ≡ ok (updating s)
  unfolding send
  send-answered s remna answered = rw (answered, send) refl

  reward_of_days :
      (now : Time) (n : ℕ) (promo : Promocode) (s : Subscription) (remna : RemnaUser)
      → promo.reward_type ≡ duration
      → promo.reward ≡ some n
      → (n == 0) ≡ false
      → respond (update_subscription (record s { expire_at = s.expire_at + days n })) ≡ some remna
      → apply_reward_remote calendar load respond now promo (some s)
        ≡ ok (updating (record s { expire_at = s.expire_at + days n }))
  unfolding apply_reward_remote apply_amount extended
  reward_of_days now n promo s remna type amount positive answered =
      rw (type, apply_reward_remote, amount, positive)
        (send-answered (record s { expire_at = s.expire_at + days n }) remna answered)

  -- A promocode of n days (n above 0) that a user may redeem extends the user's current
  -- subscription, where it is stored and the panel accepts it: the same subscription ends exactly n
  -- days later, and nothing else of it changes.
  pub duration_reward :
      (now : Time) (code : Text) (user_id n : ℕ) (db : Db) (promo : Promocode) (s : Subscription)
      (remna : RemnaUser)
      → get_by_code (upper (upper (strip code))) db ≡ some promo
      → IsRedeemable calendar now promo user_id db
      → promo.reward_type ≡ duration
      → promo.reward ≡ some n
      → (n == 0) ≡ false
      → get_current user_id db.shop ≡ some s
      → (s.id == 0) ≡ false
      → respond (update_subscription (record s { expire_at = s.expire_at + days n })) ≡ some remna
      → ((activate calendar strip upper load respond now code user_id db).1 ≡ ok promo)
        × (get_current user_id
              (activate calendar strip upper load respond now code user_id db).0.shop
            ≡ some (record s { expire_at = s.expire_at + days n }))
  unfolding persist_reward apply_reward_remote
  duration_reward now code user_id n db promo s remna found redeemable type amount positive current
        stored answered =
      let t : Subscription = record s { expire_at = s.expire_at + days n } in
      let applied : apply_reward_remote calendar load respond now promo
            (get_current user_id db.shop)
          ≡ ok (updating t) =
        rw current (reward_of_days now n promo s remna type amount positive answered) in
      let e = activate-redeemable now code user_id db promo (updating t) found redeemable applied in
      (rw e refl, rw e (get_current-update user_id db.shop s t stored refl current))
