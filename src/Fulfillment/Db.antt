-- ===== src/Fulfillment/Db.antt =====
-- The tables that the processing of payments works on, and the reads of them
-- (src/infrastructure/database/dao/transaction.py, src/infrastructure/database/dao/user.py).
use remnashop.Prelude.{ℕ, Bool, true, false, Option, none, some, List, ◌==◌, ltb, is_null}
use remnashop.Prelude.Tables.{find_where}
use remnashop.Fulfillment.Row.{Transaction, Owner}
use remnashop.Fulfillment.Statements.{Statement, execute}
use remnashop.Fulfillment.Inbox.{WebhookEvent}

pub record Db : Type 0 where
  pub transactions : List Transaction
  pub owners : List Owner
  pub inbox : List WebhookEvent
  pub next_event_id : ℕ

unfoldable pub get_by_payment_id : ℕ → Db → Option Transaction
get_by_payment_id payment_id db = find_where (λ t. t.payment_id == payment_id) db.transactions

unfoldable pub get_owner : ℕ → Db → Option Owner
get_owner user_id db = find_where (λ u. u.id == user_id) db.owners

-- `_lock_active_payment_owner`: whether it passes
abbrev owner_passes : Option Owner → Bool
owner_passes none = false
owner_passes (some u) = is_null u.merged_into_user_id

abbrev payment_passes : Option Transaction → Db → Bool
payment_passes none db = true
payment_passes (some t) db = owner_passes (find_where (λ u. u.id == t.user_id) db.owners)

unfoldable pub lock_active_payment_owner : ℕ → Db → Bool
unfolding get_by_payment_id
lock_active_payment_owner payment_id db = payment_passes (get_by_payment_id payment_id db) db

-- the database after a statement, and whether it met a row; none where the database refuses it
unfoldable pub run_statement : (Transaction → Bool) → Statement → Db → Option (Db × Bool)
unfolding execute
run_statement admits s db = elim (execute admits s db.transactions) [
  | none ↦ none
  | some (rows, n) ↦ some (record db { transactions = rows }, ltb 0 n)
]
