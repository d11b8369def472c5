-- ===== src/Subscription/Store.antt =====
-- The tables of users and subscriptions, and the DAO methods that the use cases call on them
-- (src/infrastructure/database/dao/subscription.py, src/infrastructure/database/dao/user.py).
-- `SubscriptionDao.update` writes the columns that were changed; a use case reads and writes a row
-- under the user's lock, where that is to write the whole row.
use remnashop.Prelude.{
  ℕ, suc, Bool, true, false, not, ◌&&◌, Option, none, some, List, [], ◌∷◌, ◌++◌, ◌==◌, ltb, eq_col,
  if◌then◌else◌,
}
use remnashop.Prelude.Tables.{update_where, find_where, count_where}
use remnashop.Subscription.Model.{Subscription}

-- the columns of `users` that are read or written here
pub record User : Type 0 where
  pub id : ℕ
  pub current_subscription_id : Option ℕ
  pub is_trial_available : Bool
  pub personal_discount : ℕ
  pub purchase_discount : ℕ

-- `referred` holds the `referred_id` of the referrals
pub record Shop : Type 0 where
  pub users : List User
  pub subscriptions : List Subscription
  pub next_subscription_id : ℕ
  pub referred : List ℕ

unfoldable pub get_user : ℕ → Shop → Option User
get_user user_id shop = find_where (λ u. u.id == user_id) shop.users

unfoldable pub get_subscription : ℕ → Shop → Option Subscription
get_subscription id shop = find_where (λ s. s.id == id) shop.subscriptions

unfoldable pub current_of : Option User → Shop → Option Subscription
current_of none shop = none
current_of (some u) shop =
    find_where (λ s. eq_col u.current_subscription_id s.id) shop.subscriptions

-- `get_current`
unfoldable pub get_current : ℕ → Shop → Option Subscription
unfolding current_of get_user
get_current user_id shop = current_of (get_user user_id shop) shop

-- an UPDATE of the users of one id
unfoldable pub update_user : ℕ → (User → User) → Shop → Shop
update_user user_id set shop = record shop {
  users = (update_where (λ u. u.id == user_id) set shop.users).0;
}

unfoldable pub set_trial_available : ℕ → Bool → Shop → Shop
unfolding update_user
set_trial_available user_id b = update_user user_id (λ u. record u { is_trial_available = b })

-- `claim_trial`: whether it flipped the flag of a row
unfoldable pub claim_trial : ℕ → Shop → Shop × Bool
claim_trial user_id shop =
    let (users, n) =
      update_where (λ u. u.id == user_id && u.is_trial_available)
        (λ u. record u { is_trial_available = false }) shop.users in
    (record shop { users = users }, ltb 0 n)

-- `UserDao.update` of a user whose discount was changed
unfoldable pub set_purchase_discount : ℕ → ℕ → Shop → Shop
unfolding update_user
set_purchase_discount user_id d = update_user user_id (λ u. record u { purchase_discount = d })

unfoldable pub set_personal_discount : ℕ → ℕ → Shop → Shop
unfolding update_user
set_personal_discount user_id d = update_user user_id (λ u. record u { personal_discount = d })

-- `SubscriptionDao.create`: the row gets an id and its owner, and becomes the current one
unfoldable pub create : Subscription → ℕ → Shop → Shop
unfolding update_user
create s user_id shop =
    update_user user_id (λ u. record u { current_subscription_id = some shop.next_subscription_id })
      (record shop {
        subscriptions =
            shop.subscriptions
            ++ record s { id = shop.next_subscription_id; user_id = user_id } ∷ [];
        next_subscription_id = suc shop.next_subscription_id;
      })

-- `SubscriptionDao.update`; an id of 0 is a row that was never stored
unfoldable pub update : Subscription → Shop → Shop
update s shop = if s.id == 0 then shop else record shop {
  subscriptions = (update_where (λ x. x.id == s.id) (λ _. s) shop.subscriptions).0;
}

unfoldable pub has_any_subscription : ℕ → Bool → Shop → Bool
has_any_subscription user_id include_trial shop = ltb 0 (
    count_where (λ s. s.user_id == user_id && (if include_trial then true else not s.is_trial))
      shop.subscriptions)

unfoldable pub is_invited_user : ℕ → Shop → Bool
is_invited_user user_id shop = ltb 0 (count_where (λ r. r == user_id) shop.referred)
