-- ===== src/Payment/Idempotency.antt =====
-- `PaymentIdempotencyService` (src/application/services/payment_idempotency.py): what a request
-- that carries an idempotency key is told. A method is one transaction: what it returns beside its
-- outcome is the database that was committed, which is the one before where it rolls back. The
-- clock is read once in a call.
pub mod Start
pub mod Leader
use remnashop.Prelude.{
  ℕ, ◌*◌, Bool, true, false, not, ◌&&◌, ◌||◌, Option, none, some, ◌==◌, if◌then◌else◌,
}
use remnashop.Prelude.Result.{Result, ok, err}
use remnashop.Payment.Operation.{
  Time, Text, Json, Status, claimed, processing, succeeded, unknown, manual_required, OperationKind,
  RecoveryMode, PaymentOperation, Db, DaoError, owner_merged,
}
use remnashop.Payment.Dao.Defs.{Statement, execute}
use remnashop.Payment.Dao.Claims.{
  claim, get_by_id, get_by_identity, reclaim_claimed, delete_claimed,
}
use remnashop.Payment.Dao.Processing
use remnashop.Payment.Dao.Processing.{expire_processing}

-- five and thirty minutes, in microseconds
abbrev pub claim_lease : ℕ
claim_lease = 5 * 60 * 1000000

abbrev pub processing_lease : ℕ
processing_lease = 30 * 60 * 1000000

-- the exceptions of the service; the last two are its `RuntimeError`s
pub data ServiceError : Type 0 where
  operation_owner_merged conflict in_progress outcome_unknown : ServiceError
  disappeared not_updated : ServiceError

-- `PaymentOperationStart`
pub record PaymentOperationStart : Type 0 where
  pub operation_id : ℕ
  pub provider_key : Text
  pub replay_response : Option Json

-- the row that is read again, or the `RuntimeError`
refreshed : ℕ → Db → Db × Result ServiceError (PaymentOperation × Bool)
refreshed id db = (db, elim (get_by_id id db) [ none ↦ err disappeared | some r ↦ ok (r, false) ])

recover_by_status :
    Status → Time → PaymentOperation → Db → Db × Result ServiceError (PaymentOperation × Bool)
unfolding refreshed execute
recover_by_status claimed now r db =
    let (db', became_leader) = execute (reclaim_claimed now r.id claim_lease) db in
    if became_leader then (db', ok (r, true)) else refreshed r.id db'
recover_by_status processing now r db = refreshed r.id (execute (expire_processing now r.id) db).0
recover_by_status _ now r db = (db, ok (r, false))

-- `_recover_stale`
unfoldable pub recover_stale :
    Time → PaymentOperation → Db → Db × Result ServiceError (PaymentOperation × Bool)
unfolding recover_by_status
recover_stale now r db = recover_by_status r.status now r db

started : PaymentOperation → Option Json → Result ServiceError PaymentOperationStart
started r replay =
    ok (record { operation_id = r.id; provider_key = r.provider_key; replay_response = replay })

-- the answer to a request that did not become the leader
answer : Status → PaymentOperation → Result ServiceError PaymentOperationStart
unfolding started
answer succeeded r = elim r.response [
  | none ↦ err outcome_unknown
  | some response ↦ started r (some response)
]
answer unknown r = err outcome_unknown
answer manual_required r = err outcome_unknown
answer _ r = err in_progress

-- what `start` does after its commit
unfoldable pub outcome :
    Text → Bool → Bool → PaymentOperation → Result ServiceError PaymentOperationStart
unfolding answer started
outcome request_hash created became_leader r =
    if not (r.request_hash == request_hash)
    then err conflict
    else if created || became_leader
    then started r none
    else answer r.status r

-- the end of `start`: a row with its marks is committed, an exception rolls everything back
settle :
    Db
    → Text
    → Bool
    → Db × Result ServiceError (PaymentOperation × Bool)
    → Db × Result ServiceError PaymentOperationStart
unfolding outcome
settle before request_hash created (after, ok (r, became_leader)) =
    (after, outcome request_hash created became_leader r)
settle before request_hash created (after, err e) = (before, err e)

-- the transaction of `start` once `claim` has answered
begin :
    Time
    → Db
    → Text
    → Db × Result DaoError (PaymentOperation × Bool)
    → Db × Result ServiceError PaymentOperationStart
unfolding settle recover_stale
begin now before request_hash (db, err owner_merged) = (before, err operation_owner_merged)
begin now before request_hash (db, ok (r, created)) =
    if not created && (r.request_hash == request_hash)
    then settle before request_hash created (recover_stale now r db)
    else settle before request_hash created (db, ok (r, false))

-- `start`; `provider_key` is the UUID that it draws
unfoldable pub start :
    Time
    → ℕ
    → OperationKind
    → Text
    → Text
    → Text
    → Db
    → Db × Result ServiceError PaymentOperationStart
unfolding begin claim
start now user_id operation idempotency_key request_hash provider_key db =
    begin now db request_hash
      (claim now user_id operation idempotency_key request_hash provider_key claim_lease db)

-- a method that runs one statement, and raises and rolls back unless it met the row
unfoldable pub require_update : Statement → Db → Db × Result ServiceError (Unit {0})
unfolding execute
require_update s db =
    let (db', updated) = execute s db in if updated then (db', ok tt) else (db, err not_updated)

unfoldable pub mark_processing :
    Time
    → ℕ
    → Text
    → Json
    → Json
    → Option Text
    → RecoveryMode
    → Option ℕ
    → Db
    → Db × Result ServiceError (Unit {0})
unfolding require_update
mark_processing now id gateway resolved request owner_hash mode replay_for = require_update (
    Processing.mark_processing now id processing_lease gateway resolved request owner_hash mode
      replay_for)

unfoldable pub checkpoint_provider_result :
    Time → ℕ → Json → Db → Db × Result ServiceError (Unit {0})
unfolding require_update
checkpoint_provider_result now id result =
    require_update (Processing.checkpoint_provider_result now id result)

-- `link_transaction` and `complete_in_current_transaction` leave the transaction to their caller
unfoldable pub link_transaction : Time → ℕ → ℕ → Db → Db × Result ServiceError (Unit {0})
unfolding require_update
link_transaction now id transaction_id =
    require_update (Processing.link_transaction now id transaction_id)

unfoldable pub complete : Time → ℕ → Json → Db → Db × Result ServiceError (Unit {0})
unfolding require_update
complete now id response db = require_update (Processing.complete now id response db) db

unfoldable pub complete_in_current_transaction :
    Time → ℕ → Json → Db → Db × Result ServiceError (Unit {0})
unfolding require_update
complete_in_current_transaction now id response db =
    require_update (Processing.complete now id response db) db

unfoldable pub get_owned_operation : ℕ → OperationKind → Text → Db → Option PaymentOperation
get_owned_operation user_id operation idempotency_key db =
    get_by_identity user_id operation idempotency_key db

-- `mark_unknown` and `abandon` roll the caller's transaction back first: `db` is what was committed.
-- They do not look at the row count
unfoldable pub mark_unknown : Time → ℕ → Db → Db
unfolding execute
mark_unknown now id db = (execute (Processing.mark_unknown now id) db).0

unfoldable pub abandon : ℕ → Db → Db
unfolding execute
abandon id db = (execute (delete_claimed id) db).0
