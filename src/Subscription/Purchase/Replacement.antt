-- ===== src/Subscription/Purchase/Replacement.antt =====
-- What a change of plan, the conversion of a trial and a first purchase leave behind
-- (`PurchaseSubscription`, the third and the first case, of
-- src/application/use_cases/subscription/commands/purchase.py).
use remnashop.Prelude.{
  ℕ, ◌<◌, ◌≡◌, ◌⊎◌, refl, ◌∙◌, Time, true, false, Option, none, some, List, [], ◌∷◌, ◌==◌, arith,
  inl, inr, ==-refl, All,
}
use remnashop.Prelude.Result.{ok}
use remnashop.Prelude.Tables.{find_where}
use remnashop.Prelude.Tables.Laws.{find-selected, find-append_none, find-update_where}
use remnashop.Subscription.Model.{
  PlanSnapshot, Subscription, RemnaUser, PurchaseType, new, renew, change,
}
use remnashop.Subscription.Calendar.{Calendar}
use remnashop.Subscription.Store.{
  User, Shop, get_user, get_current, create, update, update_user, set_trial_available,
}
use remnashop.Subscription.Purchase.{
  PanelCall, create_user, update_plan, changed, purchase_new, purchase_change, purchase_with,
  purchase, spend_discount, build_subscription,
}
use remnashop.Subscription.Purchase.Lookup.{
  get_current-found, get_user-spend_discount, get_user-update_user, get_current-update,
  get_current-update_user, get_current-spend_discount,
}

-- The row t is the row s with the plan and the panel's answer: another plan under the same link.
pub record IsReplacement (remna : RemnaUser) (plan : PlanSnapshot) (s t : Subscription)
    : Type 0 where
  pub same_id : t.id ≡ s.id
  pub same_remna_id : t.user_remna_id ≡ s.user_remna_id
  pub same_url : t.url ≡ s.url
  pub plan_stored : t.plan_snapshot ≡ plan
  pub trial_of_plan : t.is_trial ≡ plan.is_trial
  pub panel_expiry : t.expire_at ≡ remna.expire_at
  pub panel_status : t.status ≡ remna.status
  pub no_grace : t.grace_until ≡ none

module _ (calendar : Calendar) (respond : PanelCall → Option RemnaUser) where
  purchase-purchase_change :
      (now : Time) (user : User) (type : PurchaseType) (plan : PlanSnapshot) (shop : Shop)
      (s : Subscription)
      → get_current user.id shop ≡ some s
      → (type ≡ change) ⊎ (s.is_trial ≡ true)
      → purchase calendar respond now user type plan shop ≡ purchase_change respond user plan s shop
  unfolding purchase purchase_with
  purchase-purchase_change now user type plan shop s current (inl changes) =
      rw (changes, current) refl
  purchase-purchase_change now user new plan shop s current (inr trial) = ground arith
  purchase-purchase_change now user renew plan shop s current (inr trial) = ground arith
  purchase-purchase_change now user change plan shop s current (inr trial) = rw current refl

  purchase_change-answered :
      (user : User) (plan : PlanSnapshot) (shop : Shop) (s : Subscription) (remna : RemnaUser)
      → respond (update_plan plan) ≡ some remna
      → purchase_change respond user plan s shop
        ≡ (spend_discount user (update (changed remna plan s) shop), ok tt)
  unfolding purchase_change
  purchase_change-answered user plan shop s remna answered = rw (answered, purchase_change) refl

  -- A change of plan, or any paid purchase by a user whose current subscription is a trial, that the
  -- panel answers: it succeeds, and the current subscription is the same row with the same panel
  -- user and the same URL, so that a link that was issued goes on working. Plan, trial flag, status
  -- and end are the new plan's and the panel's, and the grace period is over.
  pub change_keeps_link :
      (now : Time) (user : User) (type : PurchaseType) (plan : PlanSnapshot) (shop : Shop)
      (s : Subscription) (remna : RemnaUser)
      → get_current user.id shop ≡ some s
      → (s.id == 0) ≡ false
      → (type ≡ change) ⊎ (s.is_trial ≡ true)
      → respond (update_plan plan) ≡ some remna
      → (t : Subscription) × ((purchase calendar respond now user type plan shop).1 ≡ ok tt)
        × (get_current user.id (purchase calendar respond now user type plan shop).0 ≡ some t)
        × IsReplacement remna plan s t
  unfolding changed
  change_keeps_link now user type plan shop s remna current stored changes answered =
      let t : Subscription = changed remna plan s in
      let e =
        purchase-purchase_change now user type plan shop s current changes
        ∙ purchase_change-answered user plan shop s remna answered in
      (
        t,
        rw e refl,
        rw e (
            get_current-spend_discount user.id user (update t shop) t
              (get_current-update user.id shop s t stored refl current)),
        record {
          same_id = refl;
          same_remna_id = refl;
          same_url = refl;
          plan_stored = refl;
          trial_of_plan = refl;
          panel_expiry = refl;
          panel_status = refl;
          no_grace = refl;
        },
      )

unused_id :
    (n : ℕ) (xs : List Subscription)
    → All (λ x. x.id < n) xs
    → find_where (λ x. n == x.id) xs ≡ none
unfolding find_where
unused_id n [] below = refl
unused_id n (x ∷ xs) below = ground (arith, below.0, unused_id n xs below.1)

get_user-create :
    (s : Subscription) (id : ℕ) (shop : Shop) (u : User)
    → get_user id shop ≡ some u
    → get_user id (create s id shop)
      ≡ some (record u { current_subscription_id = some shop.next_subscription_id })
unfolding create get_user update_user
get_user-create s id shop u there =
    find-update_where (λ x. x.id == id) (λ x. x.id == id)
      (λ x. record x { current_subscription_id = some shop.next_subscription_id }) (λ x. refl)
      shop.users u there
    ∙ rw (find-selected (λ x. x.id == id) shop.users u there) refl

pub get_current-create :
    (s : Subscription) (id : ℕ) (shop : Shop) (u : User)
    → get_user id shop ≡ some u
    → All (λ x. x.id < shop.next_subscription_id) shop.subscriptions
    → get_current id (create s id shop)
      ≡ some (record s { id = shop.next_subscription_id; user_id = id })
unfolding create find_where update_user
get_current-create s id shop u there below =
    get_current-found id (create s id shop) _ _ (get_user-create s id shop u there) (
      find-append_none (λ x. shop.next_subscription_id == x.id) shop.subscriptions _
        (unused_id shop.next_subscription_id shop.subscriptions below)
      ∙ rw (==-refl shop.next_subscription_id) refl)

-- The row that a first purchase stores, and what the user has then.
pub record IsFirst (remna : RemnaUser) (plan : PlanSnapshot) (user_id fresh : ℕ) (t : Subscription)
    (v : User) : Type 0 where
  pub new_id : t.id ≡ fresh
  pub owner : t.user_id ≡ user_id
  pub remna_id : t.user_remna_id ≡ remna.uuid
  pub url_of_panel : t.url ≡ remna.subscription_url
  pub plan_stored : t.plan_snapshot ≡ plan
  pub panel_expiry : t.expire_at ≡ remna.expire_at
  pub trial_spent : v.is_trial_available ≡ false

module _ (calendar : Calendar) (respond : PanelCall → Option RemnaUser) where
  purchase-first :
      (now : Time) (user : User) (plan : PlanSnapshot) (shop : Shop) (remna : RemnaUser)
      → get_current user.id shop ≡ none
      → respond (create_user plan) ≡ some remna
      → purchase calendar respond now user new plan shop ≡ (
        spend_discount user (
            set_trial_available user.id false
              (create (build_subscription remna plan plan.is_trial) user.id shop)),
        ok tt,
      )
  unfolding purchase purchase_with purchase_new
  purchase-first now user plan shop remna absent answered = rw (absent, answered, purchase_new) refl

  -- A first purchase by a stored user, that the panel answers, in a database whose next id is above
  -- the ids in use: it succeeds, the user's current subscription is a new row with the panel's user,
  -- URL and end and the paid plan, and the user can no longer take a trial.
  pub new_subscriber :
      (now : Time) (user : User) (plan : PlanSnapshot) (shop : Shop) (u : User) (remna : RemnaUser)
      → get_user user.id shop ≡ some u
      → get_current user.id shop ≡ none
      → All (λ x. x.id < shop.next_subscription_id) shop.subscriptions
      → respond (create_user plan) ≡ some remna
      → (t : Subscription) × (v : User) × ((purchase calendar respond now user new plan shop).1
          ≡ ok tt)
        × (get_current user.id (purchase calendar respond now user new plan shop).0 ≡ some t)
        × (get_user user.id (purchase calendar respond now user new plan shop).0 ≡ some v)
        × IsFirst remna plan user.id shop.next_subscription_id t v
  unfolding build_subscription set_trial_available get_user
  new_subscriber now user plan shop u remna there absent below answered =
      let e = purchase-first now user plan shop remna absent answered in
      let row = build_subscription remna plan plan.is_trial in
      let made : Shop = create row user.id shop in
      let held = get_user-create row user.id shop u there in
      let own = find-selected (λ x. x.id == user.id) shop.users u there in
      let flagged : Shop = set_trial_available user.id false made in
      let (v, last, same) =
        get_user-spend_discount user.id user flagged
          (record u {
            current_subscription_id = some shop.next_subscription_id;
            is_trial_available = false;
          })
          (get_user-update_user user.id user.id _ made _ (λ x. refl) held ∙ rw own refl) in
      (
        record row { id = shop.next_subscription_id; user_id = user.id },
        v,
        rw e refl,
        rw e (
            get_current-spend_discount user.id user flagged _ (
              get_current-update_user user.id user.id _ made _ (λ x. refl) (λ x. refl)
                (get_current-create row user.id shop u there below))),
        rw e last,
        record {
          new_id = refl;
          owner = refl;
          remna_id = refl;
          url_of_panel = refl;
          plan_stored = refl;
          panel_expiry = refl;
          trial_spent = same;
        },
      )
