-- ===== src/Subscription/Purchase/Renewal.antt =====
-- What a paid renewal does (`PurchaseSubscription`, the second case, of
-- src/application/use_cases/subscription/commands/purchase.py).
use remnashop.Prelude.{
  ℕ, ◌+◌, ◌≤◌, ◌≡◌, refl, ◌∙◌, max, Time, true, false, Option, none, some, List, [], ◌∷◌, ◌==◌,
  arith, days, All, Bool, Option-cases, inl, inr, if◌then◌else◌,
}
use remnashop.Prelude.Result.{Result, ok, err}
use remnashop.Subscription.Model.{PlanSnapshot, Subscription, RemnaUser, PurchaseType, is_active}
use remnashop.Subscription.Calendar.{Calendar}
use remnashop.Subscription.Store.{User, Shop, get_current, update}
use remnashop.Subscription.Purchase.{
  PanelCall, update_subscription, renewed, renewed_expiry, purchase_renew, purchase_with, purchase,
  is_renew_or_new, spend_discount, panel_failed,
}
use remnashop.Subscription.Purchase.Lookup.{get_current-update, get_current-spend_discount}

-- The row t is the row s after a payment for d days at the instant now.
pub record IsRenewal (now : Time) (d : ℕ) (plan : PlanSnapshot) (s t : Subscription) : Type 0 where
  pub paid : now + days d ≤ t.expire_at
  pub kept : s.grace_until ≡ none → s.expire_at + days d ≤ t.expire_at
  pub no_more : t.expire_at ≤ max s.expire_at now + days d
  pub works : is_active now t ≡ true
  pub no_grace : t.grace_until ≡ none
  pub plan_stored : t.plan_snapshot ≡ plan
  pub same_id : t.id ≡ s.id
  pub same_remna_id : t.user_remna_id ≡ s.user_remna_id
  pub same_url : t.url ≡ s.url
  pub same_trial : t.is_trial ≡ s.is_trial

module _ (calendar : Calendar) (respond : PanelCall → Option RemnaUser) where
  renewed_expiry-bounds :
      (now : Time) (d : ℕ) (s : Subscription)
      → (d == 0) ≡ false
      → (now + days d ≤ renewed_expiry calendar now d s)
        × (s.grace_until ≡ none → s.expire_at + days d ≤ renewed_expiry calendar now d s)
        × (renewed_expiry calendar now d s ≤ max s.expire_at now + days d)
  unfolding renewed_expiry
  renewed_expiry-bounds now d s positive = (ground arith, λ none_left. ground arith, ground arith)

  renewed-IsRenewal :
      (now : Time) (plan : PlanSnapshot) (s : Subscription)
      → (plan.duration == 0) ≡ false
      → IsRenewal now plan.duration plan s
          (record (renewed calendar now plan s) { plan_snapshot = plan })
  unfolding renewed is_active
  renewed-IsRenewal now plan s positive =
      let (paid, kept, no_more) = renewed_expiry-bounds now plan.duration s positive in
      record {
        paid = paid;
        kept = kept;
        no_more = no_more;
        works = ground arith;
        no_grace = refl;
        plan_stored = refl;
        same_id = refl;
        same_remna_id = refl;
        same_url = refl;
        same_trial = refl;
      }

  purchase-purchase_renew :
      (now : Time) (user : User) (type : PurchaseType) (plan : PlanSnapshot) (shop : Shop)
      (s : Subscription)
      → get_current user.id shop ≡ some s
      → s.is_trial ≡ false
      → is_renew_or_new type ≡ true
      → purchase calendar respond now user type plan shop
        ≡ purchase_renew calendar respond now user plan s shop
  unfolding purchase purchase_with
  purchase-purchase_renew now user type plan shop s current paid_sub renews = ground arith

  purchase_renew-answered :
      (now : Time) (user : User) (plan : PlanSnapshot) (shop : Shop) (s : Subscription)
      (remna : RemnaUser)
      → respond (update_subscription (renewed calendar now plan s)) ≡ some remna
      → purchase_renew calendar respond now user plan s shop ≡ (
        spend_discount user
            (update (record (renewed calendar now plan s) { plan_snapshot = plan }) shop),
        ok tt,
      )
  unfolding purchase_renew
  purchase_renew-answered now user plan shop s remna answered = rw (answered, purchase_renew) refl

  pub purchase-renews :
      (now : Time) (user : User) (type : PurchaseType) (plan : PlanSnapshot) (shop : Shop)
      (s : Subscription) (remna : RemnaUser)
      → get_current user.id shop ≡ some s
      → s.is_trial ≡ false
      → is_renew_or_new type ≡ true
      → respond (update_subscription (renewed calendar now plan s)) ≡ some remna
      → purchase calendar respond now user type plan shop ≡ (
        spend_discount user
            (update (record (renewed calendar now plan s) { plan_snapshot = plan }) shop),
        ok tt,
      )
  purchase-renews now user type plan shop s remna current paid_sub renews answered =
      purchase-purchase_renew now user type plan shop s current paid_sub renews
      ∙ purchase_renew-answered now user plan shop s remna answered

  pub purchase-silent :
      (now : Time) (user : User) (type : PurchaseType) (plan : PlanSnapshot) (shop : Shop)
      (s : Subscription)
      → get_current user.id shop ≡ some s
      → s.is_trial ≡ false
      → is_renew_or_new type ≡ true
      → respond (update_subscription (renewed calendar now plan s)) ≡ none
      → purchase calendar respond now user type plan shop ≡ (shop, err panel_failed)
  unfolding purchase_renew
  purchase-silent now user type plan shop s current paid_sub renews silent =
      purchase-purchase_renew now user type plan shop s current paid_sub renews
      ∙ rw (silent, purchase_renew) refl

  -- A paid renewal of a stored subscription that is no trial (also a NEW payment that was confirmed
  -- late), for d days with d above 0, which the panel answers: the use case succeeds, and the user's
  -- current subscription is the same row, with the same panel user and URL and the paid plan. It is
  -- active at once and its grace period is over. It lasts d days from now and, unless it was in its
  -- grace period, d days past its old end, and never longer than the later of the two.
  pub paid_time_is_added :
      (now : Time) (user : User) (type : PurchaseType) (plan : PlanSnapshot) (shop : Shop)
      (s : Subscription) (remna : RemnaUser)
      → get_current user.id shop ≡ some s
      → (s.id == 0) ≡ false
      → s.is_trial ≡ false
      → is_renew_or_new type ≡ true
      → (plan.duration == 0) ≡ false
      → respond (update_subscription (renewed calendar now plan s)) ≡ some remna
      → (t : Subscription) × ((purchase calendar respond now user type plan shop).1 ≡ ok tt)
        × (get_current user.id (purchase calendar respond now user type plan shop).0 ≡ some t)
        × IsRenewal now plan.duration plan s t
  unfolding renewed
  paid_time_is_added now user type plan shop s remna current stored paid_sub renews positive
        answered =
      let t : Subscription = record (renewed calendar now plan s) { plan_snapshot = plan } in
      let e = purchase-renews now user type plan shop s remna current paid_sub renews answered in
      (
        t,
        rw e refl,
        rw e (
            get_current-spend_discount user.id user (update t shop) t
              (get_current-update user.id shop s t stored refl current)),
        renewed-IsRenewal now plan s positive,
      )

-- a payment for a user: when it is processed, the user as the caller loaded it, what was paid, and
-- the panel's answer to the call that its purchase makes
pub record Paid : Type 0 where
  pub at : Time
  pub user : User
  pub type : PurchaseType
  pub plan : PlanSnapshot
  pub respond : PanelCall → Option RemnaUser

abbrev pub went_through : {E : Type 0} → Result E Unit → Bool
went_through (ok u) = true
went_through (err e) = false

module _ (calendar : Calendar) where
  -- The purchases of the payments one after the other, whether each goes through or not.
  unfoldable pub pay_all : List Paid → Shop → Shop
  unfolding purchase
  pay_all [] shop = shop
  pay_all (p ∷ payments) shop =
      pay_all payments (purchase calendar p.respond p.at p.user p.type p.plan shop).0

  -- the paid days of the payments whose purchase goes through
  unfoldable pub granted_days : List Paid → Shop → ℕ
  unfolding purchase
  granted_days [] shop = 0
  granted_days (p ∷ payments) shop =
      let (after, result) = purchase calendar p.respond p.at p.user p.type p.plan shop in
      (if went_through result then p.plan.duration else 0) + granted_days payments after

  -- Over any number of payments (renewals, or NEW payments that are confirmed late) for a user's
  -- stored subscription that is no trial and in no grace period, each for a plan of limited
  -- duration, whatever the panel answers to each: the subscription ends at least as many days after
  -- its old end as the payments paid for whose purchase succeeded. A purchase that fails takes
  -- nothing away.
  pub every_paid_day_counts :
      (id : ℕ) (payments : List Paid) (shop : Shop) (s : Subscription)
      → get_current id shop ≡ some s
      → (s.id == 0) ≡ false
      → s.is_trial ≡ false
      → s.grace_until ≡ none
      → All
          (λ p.
            (p.user.id ≡ id) × (is_renew_or_new p.type ≡ true) × ((p.plan.duration == 0) ≡ false))
          payments
      → (t : Subscription) × (get_current id (pay_all payments shop) ≡ some t)
        × (s.expire_at + days (granted_days payments shop) ≤ t.expire_at)
  unfolding pay_all granted_days
  every_paid_day_counts id [] shop s current stored paid_sub no_grace all =
      (s, current, omega arith)
  every_paid_day_counts id (p ∷ payments) shop s current stored paid_sub no_grace
        ((own, renews, positive), all) =
      let mine : get_current p.user.id shop ≡ some s = rw own current in
      elim (Option-cases (p.respond (update_subscription (renewed calendar p.at p.plan s)))) [
        | inl silent ↦
            let e =
              purchase-silent calendar p.respond p.at p.user p.type p.plan shop s mine paid_sub
                renews silent in
            let (v, last, more) =
              every_paid_day_counts id payments shop s current stored paid_sub no_grace all in
            (v, rw e last, rw e (omega arith))
        | inr (remna, answered) ↦
            let (t, done, there, renewal) =
              paid_time_is_added calendar p.respond p.at p.user p.type p.plan shop s remna mine
                stored paid_sub renews positive answered in
            let (v, last, more) =
              every_paid_day_counts id payments
                (purchase calendar p.respond p.at p.user p.type p.plan shop).0 t (rw (← own) there)
                (rw renewal.same_id stored) (rw renewal.same_trial paid_sub) renewal.no_grace all in
            let kept = renewal.kept no_grace in (v, last, rw done (omega arith))
      ]
