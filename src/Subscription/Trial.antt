-- ===== src/Subscription/Trial.antt =====
-- `ActivateTrialSubscription` (src/application/use_cases/subscription/commands/purchase.py). The
-- user is the one that the caller loaded, perhaps some time ago; the panel's answer is an argument,
-- none where it raises. The transaction is kept only if nothing raises.
pub mod Spent
pub mod Once
use remnashop.Prelude.{Bool, true, false, not, Option, none, some, if◌then◌else◌}
use remnashop.Prelude.Result.{Result, ok, err}
use remnashop.Subscription.Model.{PlanSnapshot, RemnaUser}
use remnashop.Subscription.Store.{User, Shop, claim_trial, create}
use remnashop.Subscription.Purchase.{build_subscription}

-- `TrialNotAvailableError`, before and after the claim, and an exception of the panel's client
pub data TrialError : Type 0 where
  not_available already_activated panel_failed : TrialError

unfoldable pub activate_trial :
    Option RemnaUser → User → PlanSnapshot → Shop → Shop × Result TrialError Unit
unfolding claim_trial build_subscription create
activate_trial answer user plan shop =
    let (held, claimed) = claim_trial user.id shop in
    if not user.is_trial_available
    then (shop, err not_available)
    else if not claimed
    then (shop, err already_activated)
    else elim answer [
      | none ↦ (shop, err panel_failed)
      | some remna ↦ (create (build_subscription remna plan true) user.id held, ok tt)
    ]
