-- ===== src/Promocode/Redemption.antt =====
-- Who may redeem a promocode, and what a redemption does (`ValidatePromocode`, `ActivatePromocode`:
-- src/application/use_cases/promocode/queries/validate.py,
-- src/application/use_cases/promocode/commands/activate.py).
use remnashop.Prelude.{
  ℕ, ◌≤◌, ◌<◌, ◌≡◌, ◌≢◌, ◌↔◌, refl, sym, ap, ◌∙◌, Time, Text, Bool, true, false, Option, none, some,
  if◌then◌else◌, arith, Bool-cases, Option-cases, inl, inr,
}
use remnashop.Prelude.Result.{Result, ok, err, ◌>>=◌, ◌>>◌}
use remnashop.Subscription.Model.{Subscription, is_active}
use remnashop.Subscription.Calendar.{Calendar, unlimited_expire_year}
use remnashop.Subscription.Store.{Shop, get_current, has_any_subscription, is_invited_user}
use remnashop.Promocode.Model.{
  RewardType, duration, traffic, devices, subscription, personal_discount, purchase_discount,
  Availability, everyone, new, existing, invited, Promocode, Activation, Db, PromocodeError,
  get_by_code, get_activations_count, get_activation_by_user,
}
use remnashop.Promocode.Validate.{
  raise_if, requires_subscription, has_expired, is_exhausted, is_redeemed, check_availability,
  check_subscription_requirements, check_promocode, validate,
}

-- The rules of redemption, stated without the code's order of checks.
abbrev pub InTime : Option Time → Time → Type 0
InTime none now = Unit
InTime (some t) now = now ≤ t

abbrev pub HasRoom : Option ℕ → ℕ → Type 0
HasRoom none count = Unit
HasRoom (some n) count = count < n

-- The audience of a promocode.
abbrev pub IsFor : Availability → ℕ → Shop → Type 0
IsFor everyone user_id shop = Unit
IsFor new user_id shop = has_any_subscription user_id false shop ≡ false
IsFor existing user_id shop = has_any_subscription user_id false shop ≡ true
IsFor invited user_id shop = is_invited_user user_id shop ≡ true

module _ (calendar : Calendar) where
  open calendar use {year}

  -- A subscription that a reward of the type can extend.
  abbrev pub IsExtendable : Time → RewardType → Subscription → Type 0
  IsExtendable now duration s =
      (is_active now s ≡ true) × (s.is_trial ≡ false) × (year s.expire_at ≢ unlimited_expire_year)
  IsExtendable now traffic s = (is_active now s ≡ true) × (s.traffic_limit ≢ 0)
  IsExtendable now devices s = (is_active now s ≡ true) × (s.device_limit ≢ 0)
  IsExtendable now _ s = Unit

  abbrev pub Extends : Time → RewardType → Option Subscription → Type 0
  Extends now type (some s) = IsExtendable now type s
  Extends now type none = requires_subscription type ≡ false

  pub record IsRedeemable (now : Time) (promo : Promocode) (user_id : ℕ) (db : Db) : Type 0 where
    pub switched_on : promo.is_active ≡ true
    pub in_time : InTime promo.expires_at now
    pub has_room : HasRoom promo.max_activations (get_activations_count promo.id db)
    pub unused : promo.is_reusable ≡ false → get_activation_by_user promo.id user_id db ≡ none
    pub extends : Extends now promo.reward_type (get_current user_id db.shop)
    pub for_user : IsFor promo.availability user_id db.shop

  check_subscription_requirements_sound :
      (now : Time) (type : RewardType) (current : Option Subscription)
      → (if requires_subscription type
          then check_subscription_requirements calendar now type current
          else ok tt)
        ≡ ok tt
      → Extends now type current
  unfolding check_subscription_requirements
  check_subscription_requirements_sound now duration none h = absurd (cc h)
  check_subscription_requirements_sound now traffic none h = absurd (cc h)
  check_subscription_requirements_sound now devices none h = absurd (cc h)
  check_subscription_requirements_sound now subscription none h = refl
  check_subscription_requirements_sound now personal_discount none h = refl
  check_subscription_requirements_sound now purchase_discount none h = refl
  check_subscription_requirements_sound now duration (some s) h =
      (ground arith, ground arith, λ unlimited. ground arith)
  check_subscription_requirements_sound now traffic (some s) h =
      (ground arith, λ unlimited. ground arith)
  check_subscription_requirements_sound now devices (some s) h =
      (ground arith, λ unlimited. ground arith)
  check_subscription_requirements_sound now subscription (some s) h = tt
  check_subscription_requirements_sound now personal_discount (some s) h = tt
  check_subscription_requirements_sound now purchase_discount (some s) h = tt

  check_subscription_requirements_complete :
      (now : Time) (type : RewardType) (current : Option Subscription)
      → Extends now type current
      → (if requires_subscription type
          then check_subscription_requirements calendar now type current
          else ok tt)
        ≡ ok tt
  unfolding check_subscription_requirements
  check_subscription_requirements_complete now duration none h = absurd (cc h)
  check_subscription_requirements_complete now traffic none h = absurd (cc h)
  check_subscription_requirements_complete now devices none h = absurd (cc h)
  check_subscription_requirements_complete now subscription current h = refl
  check_subscription_requirements_complete now personal_discount current h = refl
  check_subscription_requirements_complete now purchase_discount current h = refl
  check_subscription_requirements_complete now duration (some s) (active_now, paid_sub, limited) =
      ground (arith, limited)
  check_subscription_requirements_complete now traffic (some s) (active_now, limited) =
      ground (arith, limited)
  check_subscription_requirements_complete now devices (some s) (active_now, limited) =
      ground (arith, limited)

check_availability_sound :
    (a : Availability) (user_id : ℕ) (shop : Shop)
    → check_availability a user_id shop ≡ ok tt
    → IsFor a user_id shop
unfolding check_availability
check_availability_sound everyone user_id shop h = tt
check_availability_sound new user_id shop h = ground arith
check_availability_sound existing user_id shop h = ground arith
check_availability_sound invited user_id shop h = ground arith

check_availability_complete :
    (a : Availability) (user_id : ℕ) (shop : Shop)
    → IsFor a user_id shop
    → check_availability a user_id shop ≡ ok tt
unfolding check_availability
check_availability_complete everyone user_id shop h = refl
check_availability_complete new user_id shop h = ground arith
check_availability_complete existing user_id shop h = ground arith
check_availability_complete invited user_id shop h = ground arith

in_time : (t : Option Time) (now : Time) → (has_expired t now ≡ false) ↔ InTime t now
in_time none now = (λ h. tt, λ h. refl)
in_time (some t) now = (λ h. ground arith, λ h. ground arith)

pub has_room : (n : Option ℕ) (count : ℕ) → (is_exhausted n count ≡ false) ↔ HasRoom n count
has_room none count = (λ h. tt, λ h. refl)
has_room (some n) count = (λ h. ground arith, λ h. ground arith)

pub unused :
    (promo : Promocode) (found : Option Activation)
    → (is_redeemed promo found ≡ false) ↔ (promo.is_reusable ≡ false → found ≡ none)
unused promo none = (λ h single. refl, λ h. ground arith)
unused promo (some a) = (
  λ h single. absurd (ground arith),
  λ h. elim (Bool-cases promo.is_reusable) [ inl t ↦ ground arith | inr f ↦ absurd (cc (h f)) ],
)

-- a check that passes, and the checks after it
both_pass : (m k : Result PromocodeError Unit) → (m >>= λ _. k) ≡ ok tt → (m ≡ ok tt) × (k ≡ ok tt)
both_pass (ok u) k h = (refl, h)
both_pass (err e) k h = absurd (cc h)

not_raised : (b : Bool) (e : PromocodeError) → raise_if b e ≡ ok tt → b ≡ false
not_raised true e h = absurd (cc h)
not_raised false e h = refl

yields :
    (m : Result PromocodeError Unit) (p q : Promocode) → (m >> ok p) ≡ ok q → (m ≡ ok tt) × (p ≡ q)
yields (ok u) p q h = (refl, cc h)
yields (err e) p q h = absurd (cc h)

module _ (calendar : Calendar) where
  check_promocode_sound :
      (now : Time) (promo : Promocode) (user_id : ℕ) (db : Db)
      → check_promocode calendar now promo user_id db ≡ ok tt
      → IsRedeemable calendar now promo user_id db
  unfolding check_promocode
  check_promocode_sound now promo user_id db h =
      let (on, h1) = both_pass _ _ h in
      let (fresh, h2) = both_pass _ _ h1 in
      let (room, h3) = both_pass _ _ h2 in
      let (own, h4) = both_pass _ _ h3 in
      let (extendable, audience) = both_pass _ _ h4 in
      record {
        switched_on = ground (arith, not_raised _ _ on);
        in_time = (in_time promo.expires_at now).0 (not_raised _ _ fresh);
        has_room =
            (has_room promo.max_activations (get_activations_count promo.id db)).0
              (not_raised _ _ room);
        unused = (unused promo (get_activation_by_user promo.id user_id db)).0 (not_raised _ _ own);
        extends =
            check_subscription_requirements_sound calendar now promo.reward_type
              (get_current user_id db.shop) extendable;
        for_user = check_availability_sound promo.availability user_id db.shop audience;
      }

  check_promocode_complete :
      (now : Time) (promo : Promocode) (user_id : ℕ) (db : Db)
      → IsRedeemable calendar now promo user_id db
      → check_promocode calendar now promo user_id db ≡ ok tt
  unfolding check_promocode
  check_promocode_complete now promo user_id db h =
      let fresh = (in_time promo.expires_at now).1 h.in_time in
      let room =
        (has_room promo.max_activations (get_activations_count promo.id db)).1 h.has_room in
      let own = (unused promo (get_activation_by_user promo.id user_id db)).1 h.unused in
      let extendable =
        check_subscription_requirements_complete calendar now promo.reward_type
          (get_current user_id db.shop) h.extends in
      let audience = check_availability_complete promo.availability user_id db.shop h.for_user in
      rw (h.switched_on, fresh, room, own, extendable) audience

  -- Validation succeeds with a promocode exactly where the normalised code finds it and it is
  -- redeemable: it is switched on, its end is not past, its limit is not reached, this user has not
  -- used it unless it is reusable, the user belongs to its audience, and a reward of days, traffic
  -- or devices meets an active subscription that still has a limit there (days: no trial).
  pub validate_iff_IsRedeemable :
      (strip upper : Text → Text) (now : Time) (code : Text) (user_id : ℕ) (db : Db)
      (promo : Promocode)
      → (validate calendar strip upper now code user_id db ≡ ok promo) ↔ (
          (get_by_code (upper (upper (strip code))) db ≡ some promo)
          × IsRedeemable calendar now promo user_id db)
  unfolding validate
  validate_iff_IsRedeemable strip upper now code user_id db promo = (
    λ h. elim (Option-cases (get_by_code (upper (upper (strip code))) db)) [
      | inl absent ↦ absurd (ground arith)
      | inr (found, there) ↦
          let (passed, same) =
            yields (check_promocode calendar now found user_id db) found promo (ground arith) in
          (
            there ∙ ap some same,
            check_promocode_sound now promo user_id db (
                ap (λ (p : Promocode). check_promocode calendar now p user_id db) (sym same)
                ∙ passed),
          )
    ],
    λ (there, redeemable).
        rw (validate, there, check_promocode_complete now promo user_id db redeemable) refl,
  )
