-- ===== src/Recovery/Tests.antt =====
-- Examples of recovery snapshots (src/application/services/payment_recovery_snapshot.py).
use remnashop.Prelude.{ℕ, Bool, true, false, Option, none, some, List, [], ◌∷◌, ◌==◌, ◌≡◌, refl}
use remnashop.Prelude.Result.{ok}
use remnashop.Pricing.Decimal.{Decimal, finite}
use remnashop.Fulfillment.Row.{pending, completed}
use remnashop.Recovery.Value.{code_points}
use remnashop.Recovery.Snapshot.{
  Codecs, ResolvedPayment, traffic, renew, rub, yookassa, build_resolved_payment_snapshot,
}
use remnashop.Recovery.Reading.{transaction_from_resolved_snapshot}
use remnashop.Recovery.RoundTrip.{IsFaithful, IsRecoverable, resolved_snapshot_round_trip}

abbrev sign_code : Bool → ℕ
sign_code true = 45
sign_code false = 43

abbrev is_minus : ℕ → Bool
is_minus a = a == 45

-- a decimal as its sign, coefficient and places
abbrev plain_text : Decimal → List ℕ
plain_text (finite n c s) = sign_code n ∷ c ∷ s ∷ []
plain_text _ = 0 ∷ []

abbrev plain_of : List ℕ → Option Decimal
plain_of (a ∷ c ∷ s ∷ []) = some (finite (is_minus a) c s)
plain_of _ = none

abbrev single : ℕ → List ℕ
single u = u ∷ []

abbrev single_of : List ℕ → Option ℕ
single_of (u ∷ []) = some u
single_of _ = none

abbrev plain : Codecs
plain = record {
  decimal_text = plain_text;
  decimal_of = plain_of;
  uuid_text = single;
  uuid_of = single_of;
  strategy_text = single;
  strategy_of = single_of;
}

plain_of-plain_text :
    (n : Bool) (c s : ℕ) → plain_of (plain_text (finite n c s)) ≡ some (finite n c s)
plain_of-plain_text true c s = refl
plain_of-plain_text false c s = refl

plain-IsFaithful : IsFaithful plain
plain-IsFaithful = record {
  decimal_read = plain_of-plain_text;
  decimal_full = λ n c s. refl;
  uuid_read = λ u. refl;
  uuid_full = λ u. refl;
  strategy_read = λ u. refl;
  strategy_full = λ u. refl;
}

-- a renewal for 90 of 100 roubles
abbrev renewal : ResolvedPayment
renewal = record {
  payment_id = 9;
  user_id = 5;
  status = completed;
  purchase_type = renew;
  gateway_type = yookassa;
  gateway_display_name = some (code_points "Card");
  payment_method = none;
  pricing = record {
    original_amount = finite false 100 0;
    discount_percent = 10;
    final_amount = finite false 90 0;
  };
  currency = rub;
  plan_snapshot = record {
    id = 3;
    name = code_points "Basic";
    tag = none;
    type = traffic;
    traffic_limit_strategy = 1;
    traffic_limit = 50;
    device_limit = 0;
    duration = 30;
    internal_squads = 11 ∷ 12 ∷ [];
    external_squad = some 13;
    is_trial = false;
  };
}

renewal-IsRecoverable : IsRecoverable renewal
renewal-IsRecoverable = record {
  owned = refl;
  original = refl;
  final = refl;
  percent = refl;
  reduced = refl;
  display_name = refl;
  payment_method = refl;
  name = refl;
  tag = refl;
}

resolved_snapshot_round_trip_example :
    transaction_from_resolved_snapshot plain 5 21 (build_resolved_payment_snapshot plain renewal)
    ≡ ok (record renewal { payment_id = 21; status = pending })
resolved_snapshot_round_trip_example =
    resolved_snapshot_round_trip plain plain-IsFaithful renewal 21 renewal-IsRecoverable
