-- ===== src/Fulfillment/Calls/Reach/Settled.antt =====
-- What the end of a run does (`ProcessPayment` after the claim,
-- src/application/use_cases/gateways/commands/payment.py) is a sequence of the statements.
use remnashop.Prelude.{
  ◌||◌, Time, Text, Bool, not, is_null, Option, none, Option-cases, inl, inr, ℕ,
}
use remnashop.Prelude.Result.{err, Result-cases}
use remnashop.Fulfillment.Row.{Transaction, ErrorCode, side_effect_failed}
use remnashop.Fulfillment.Db.{Db, get_by_payment_id}
use remnashop.Fulfillment.Process.{ProcessError, refused, not_applied}
use remnashop.Fulfillment.Settle.{
  SideEffect, applied, unreachable, raised, fence, settle_deferred, settle_failed, alert,
  settle_late, settle_applied, settle, late_code, is_proved, is_manual,
}
use remnashop.Fulfillment.Calls.{statement, complete, release, mark_manual, mark_alerted}
use remnashop.Fulfillment.Calls.Reach.{Reach, here, Reach-if, Reach-run}

module _ (admits : Transaction → Bool) where
  Reach-fence :
      {s : Db} (now : Time) (token_hash : Text) (code : ErrorCode) (otherwise : ProcessError)
      (p : ℕ) (before db : Db)
      → Reach admits s before
      → Reach admits s db
      → Reach admits s (fence admits token_hash code otherwise p before db).0
  unfolding fence statement
  Reach-fence now k code otherwise p before db b r =
      Reach-run admits db now (mark_manual p k code) (before, err refused) _ r b
        (λ db' marked r'. Reach-if admits marked _ _ r' b)

  Reach-settle_deferred :
      (now : Time) (token_hash : Text) (p : ℕ) (db : Db)
      → Reach admits db (settle_deferred admits now token_hash p db).0
  unfolding settle_deferred statement
  Reach-settle_deferred now k p db =
      Reach-run admits db now (release p k) (db, err refused) _ here here
        (λ db' released r'.
          Reach-if admits released _ _ r'
            (Reach-fence now k side_effect_failed not_applied p db db' here r'))

  Reach-settle_failed :
      (now : Time) (token_hash : Text) (p : ℕ) (db : Db)
      → Reach admits db (settle_failed admits token_hash p db).0
  unfolding settle_failed statement
  Reach-settle_failed now k p db =
      Reach-run admits db now (mark_manual p k side_effect_failed) (db, err refused) _ here here
        (λ db' marked r'.
          Reach-if admits (marked || is_manual (get_by_payment_id p db')) _ _ r' here)

  Reach-alert :
      {s : Db} (now : Time) (p : ℕ) (db : Db)
      → Reach admits s db
      → Reach admits s (alert admits now p db).0
  unfolding alert statement
  Reach-alert now p db r =
      Reach-run admits db now (mark_alerted p none) (db, err refused) _ r r (λ db' hit r'. r')

  Reach-settle_late :
      {s : Db} (now : Time) (token_hash : Text) (current : Option Transaction) (p : ℕ)
      (before db : Db)
      → Reach admits s before
      → Reach admits s db
      → Reach admits s (settle_late admits now token_hash current p before db).0
  unfolding settle_late statement
  Reach-settle_late now k current p before db b r = elim (Option-cases (late_code k current)) [
    | inl e ↦ rw (e, settle_late) (Reach-if admits (is_proved current) _ _ r b)
    | inr (code, e) ↦
        rw (e, settle_late)
          (Reach-run admits db now (mark_manual p k code) (before, err refused) _ r b
            (λ db' finalized r'.
              Reach-if admits (not finalized || is_null (get_by_payment_id p db')) _ _ b
                (Reach-alert now p db' r')))
  ]

  Reach-settle_applied :
      (now : Time) (token_hash : Text) (p : ℕ) (db : Db)
      → Reach admits db (settle_applied admits now token_hash p db).0
  unfolding settle_applied statement
  Reach-settle_applied now k p db =
      Reach-run admits db now (complete p k) (db, err refused) _ here here
        (λ db' marked r'.
          Reach-if admits marked _ _ r'
            (Reach-settle_late now k (get_by_payment_id p db') p db db' here r'))

  pub Reach-settle :
      (now : Time) (token_hash : Text) (p : ℕ) (conflict defer : Bool) (effect : SideEffect)
      (db : Db)
      → Reach admits db (settle admits now token_hash p conflict defer effect db).0
  unfolding settle
  Reach-settle now k p conflict defer unreachable db =
      Reach-if admits defer _ _ (Reach-settle_deferred now k p db) (Reach-settle_failed now k p db)
  Reach-settle now k p conflict defer raised db = Reach-settle_failed now k p db
  Reach-settle now k p conflict defer applied db =
      elim (Result-cases (settle_applied admits now k p db).1) [
        | inl (u, e) ↦ rw e (Reach-settle_applied now k p db)
        | inr (x, e) ↦ rw e (Reach-settle_applied now k p db)
      ]
