-- ===== src/Subscription/Grace.antt =====
-- `EnterGraceMode` (src/application/use_cases/subscription/commands/grace.py), which runs when the
-- panel reports that a subscription has expired. Whether the panel's call succeeds is an argument.
use remnashop.Prelude.{
  ℕ, ◌+◌, ◌*◌, ◌≡◌, refl, Time, Text, Bool, true, false, not, ◌&&◌, Option, none, some, List, [],
  ◌∷◌, ◌==◌, if◌then◌else◌, is_null, days, arith, Bool-cases, ◌≢◌, inl, inr,
}
use remnashop.Prelude.Result.{Result, ok, err}
use remnashop.Subscription.Model.{
  Subscription, TrafficLimitStrategy, PlanSnapshot, RemnaUser, PurchaseType, is_active,
}
use remnashop.Subscription.Calendar.{Calendar, days_to_datetime}
use remnashop.Subscription.Store.{Shop, User, get_current, update}
use remnashop.Subscription.Purchase.{
  PanelCall, update_subscription, renewed, renewed_expiry, purchase, is_renew_or_new,
}
use remnashop.Subscription.Purchase.Lookup.{get_current-update, get_current-spend_discount}
use remnashop.Subscription.Purchase.Renewal.{purchase-renews}

-- `GraceSettingsDto`
pub record GraceSettings : Type 0 where
  pub enabled : Bool
  pub duration_days : ℕ
  pub internal_squads : List Text
  pub external_squad : Option Text
  pub traffic_mb : ℕ
  pub traffic_strategy : TrafficLimitStrategy
  pub tag : Option Text

abbrev is_indefinite : GraceSettings → Bool
is_indefinite grace = grace.duration_days == 0

-- the panel's call: `apply_grace` or `disable_user`
pub data GraceCall : Type 0 where
  apply_grace :
      Text → Time → List Text → Option Text → ℕ → TrafficLimitStrategy → Option Text → ℕ → GraceCall
  disable_user : Text → GraceCall

-- what the caller sees: nothing, or one of the two events
pub data GraceEvent : Type 0 where
  nothing expired_event : GraceEvent
  activated_event : Time → GraceEvent

-- an exception of the panel's client
pub data GraceError : Type 0 where
  panel_failed : GraceError

-- `grace.internal_squads or sub.internal_squads`
abbrev squads_or : List Text → List Text → List Text
squads_or [] own = own
squads_or (s ∷ squads) own = s ∷ squads

abbrev squad_or : Option Text → Option Text → Option Text
squad_or none own = own
squad_or (some s) own = some s

module _ (calendar : Calendar) (accepts : GraceCall → Bool) where
  unfoldable pub grace_end : Time → GraceSettings → Time
  unfolding days_to_datetime
  grace_end now grace =
      if is_indefinite grace
      then days_to_datetime calendar 0 now
      else now + days grace.duration_days

  -- `_start_grace`
  unfoldable pub start_grace :
      Time → GraceSettings → Subscription → Shop → Shop × Result GraceError GraceEvent
  unfolding grace_end update
  start_grace now grace s shop =
      let until = grace_end now grace in
      if accepts (
        apply_grace s.user_remna_id until (squads_or grace.internal_squads s.internal_squads)
          (squad_or grace.external_squad s.external_squad) (grace.traffic_mb * 1048576)
          grace.traffic_strategy grace.tag s.device_limit)
      then (update (record s { grace_until = some until }) shop, ok (activated_event until))
      else (shop, err panel_failed)

  -- `_end_grace`, and the event after it
  unfoldable pub end_grace : Subscription → Shop → Shop × Result GraceError GraceEvent
  unfolding update
  end_grace s shop =
      if accepts (disable_user s.user_remna_id)
      then (update (record s { grace_until = none }) shop, ok expired_event)
      else (shop, err panel_failed)

  enter_grace_with :
      Time → GraceSettings → Option Subscription → Shop → Shop × Result GraceError GraceEvent
  unfolding start_grace end_grace
  enter_grace_with now grace none shop = (shop, ok nothing)
  enter_grace_with now grace (some s) shop =
      if not (is_null s.grace_until)
      then end_grace s shop
      else if grace.enabled && not s.is_trial
      then start_grace now grace s shop
      else (shop, ok expired_event)

  unfoldable pub enter_grace : Time → GraceSettings → ℕ → Shop → Shop × Result GraceError GraceEvent
  unfolding enter_grace_with
  enter_grace now grace user_id shop = enter_grace_with now grace (get_current user_id shop) shop

  end_grace-starts :
      (s : Subscription) (shop : Shop) (t : Time) → (end_grace s shop).1 ≢ ok (activated_event t)
  unfolding end_grace
  end_grace-starts s shop t started = elim (Bool-cases (accepts (disable_user s.user_remna_id))) [
    | inl y ↦ ground arith
    | inr n ↦ ground arith
  ]

  start_grace-starts :
      (now : Time) (grace : GraceSettings) (s : Subscription) (shop : Shop) (t : Time)
      → (start_grace now grace s shop).1 ≡ ok (activated_event t)
      → (start_grace now grace s shop).0 ≡ update (record s { grace_until = some t }) shop
  unfolding start_grace
  start_grace-starts now grace s shop t started = ground arith

  enter_grace-starts :
      (now : Time) (grace : GraceSettings) (user_id : ℕ) (shop : Shop) (s : Subscription) (t : Time)
      → get_current user_id shop ≡ some s
      → (enter_grace now grace user_id shop).1 ≡ ok (activated_event t)
      → (s.is_trial ≡ false)
        × ((enter_grace now grace user_id shop).0 ≡ update (record s { grace_until = some t }) shop)
  unfolding enter_grace enter_grace_with
  enter_grace-starts now grace user_id shop s t current started =
      elim (Bool-cases (not (is_null s.grace_until))) [
        | inl y ↦ absurd (ground (arith, end_grace-starts s shop t))
        | inr n ↦ elim (Bool-cases (grace.enabled && not s.is_trial)) [
          | inl y ↦ (ground arith, ground (arith, start_grace-starts now grace s shop t))
          | inr m ↦ absurd (ground arith)
        ]
      ]

module _ (calendar : Calendar) (respond : PanelCall → Option RemnaUser) where
  renewed-grace :
      (later : Time) (plan : PlanSnapshot) (s : Subscription) (t : Time)
      → (plan.duration == 0) ≡ false
      → (renewed calendar later plan (record s { grace_until = some t })).expire_at
        ≡ later + days plan.duration
  unfolding renewed renewed_expiry
  renewed-grace later plan s t positive = rw positive refl

  -- When an expired subscription has gone into its grace period, a paid renewal at any later instant,
  -- for d days with d above 0, that the panel answers makes it active, ends the grace period and
  -- lasts exactly d days from the payment: the days of grace are neither charged nor added.
  pub payment_ends_grace :
      (accepts : GraceCall → Bool) (now : Time) (grace : GraceSettings) (shop : Shop)
      (s : Subscription) (t later : Time) (user : User) (type : PurchaseType) (plan : PlanSnapshot)
      (remna : RemnaUser)
      → get_current user.id shop ≡ some s
      → (s.id == 0) ≡ false
      → (enter_grace calendar accepts now grace user.id shop).1 ≡ ok (activated_event t)
      → is_renew_or_new type ≡ true
      → (plan.duration == 0) ≡ false
      → respond
          (update_subscription (renewed calendar later plan (record s { grace_until = some t })))
        ≡ some remna
      → (v : Subscription) × (get_current user.id
            (purchase calendar respond later user type plan
              (enter_grace calendar accepts now grace user.id shop).0).0
          ≡ some v)
        × (v.expire_at ≡ later + days plan.duration)
        × (v.grace_until ≡ none)
        × (is_active later v ≡ true)
  unfolding renewed is_active
  payment_ends_grace accepts now grace shop s t later user type plan remna current stored started
        renews positive answered =
      let (paid_sub, after) =
        enter_grace-starts calendar accepts now grace user.id shop s t current started in
      let held : Subscription = record s { grace_until = some t } in
      let sent : Subscription = record (renewed calendar later plan held) {
        plan_snapshot = plan;
      } in
      let kept = get_current-update user.id shop s held stored refl current in
      let e =
        purchase-renews calendar respond later user type plan (update held shop) held remna kept
          paid_sub renews answered in
      let exact = renewed-grace later plan s t positive in
      (
        sent,
        rw after (
            rw e (
              get_current-spend_discount user.id user (update sent (update held shop)) sent
                (get_current-update user.id (update held shop) held sent stored refl kept))),
        exact,
        refl,
        ground (arith, exact),
      )
