-- ===== src/Pricing/Decimal.antt =====
-- The operations of Python's `decimal.Decimal` that prices go through
-- (src/application/services/pricing.py).
use remnashop.Prelude.{
  ℕ, zero, suc, ◌+◌, ◌-◌, ◌*◌, ◌/◌, ◌%◌, ◌^◌, Bool, true, false, not, ◌&&◌, ◌||◌, ◌==◌, ltb, leb,
  if◌then◌else◌,
}
use remnashop.Prelude.Result.{Result, ok, err}

-- `finite negative coefficient places` is ± coefficient / 10 ^ places
pub data Decimal : Type 0 where
  finite : Bool → ℕ → ℕ → Decimal
  infinite : Bool → Decimal
  nan : Decimal

-- `ValueError`, `decimal.InvalidOperation`, `PriceNotFoundError`
pub data PriceError : Type 0 where
  value_error invalid_operation price_not_found : PriceError

abbrev pub zero_amount : Decimal
zero_amount = finite false 0 0

-- `value <= 0`; an order comparison with NaN raises
abbrev pub le_zero : Decimal → Result PriceError Bool
le_zero (finite negative c s) = ok (negative || c == 0)
le_zero (infinite negative) = ok negative
le_zero nan = err invalid_operation

-- `value < 0`
abbrev pub lt_zero : Decimal → Result PriceError Bool
lt_zero (finite negative c s) = ok (negative && not (c == 0))
lt_zero (infinite negative) = ok negative
lt_zero nan = err invalid_operation

-- `value == 0`
abbrev pub eq_zero : Decimal → Bool
eq_zero (finite negative c s) = c == 0
eq_zero _ = false

abbrev same_sign : Bool → Bool → Bool
same_sign true b = b
same_sign false b = not b

-- `a == b`
abbrev pub eq_amount : Decimal → Decimal → Bool
eq_amount (finite n c s) (finite m d t) =
    (c == 0 && d == 0) || (same_sign n m && c * 10 ^ t == d * 10 ^ s)
eq_amount (infinite n) (infinite m) = same_sign n m
eq_amount a b = false

-- `value < units / 10 ^ places`, for positive units
abbrev pub lt_units : Decimal → ℕ → ℕ → Result PriceError Bool
lt_units (finite negative c s) units places =
    ok (negative || ltb (c * 10 ^ places) (units * 10 ^ s))
lt_units (infinite negative) units places = ok negative
lt_units nan units places = err invalid_operation

-- n / d to the nearest integer, and to the even one of two that are as near
unfoldable pub round_half_even : ℕ → ℕ → ℕ
round_half_even n d =
    let q = n / d in
    let r = n % d in
    if ltb (2 * r) d then q else if ltb d (2 * r) then q + 1 else if q % 2 == 0 then q else q + 1

-- how many digits a coefficient has beyond the 28 of the context; the coefficient is fuel enough
unfoldable pub excess_digits : ℕ → ℕ → ℕ
excess_digits zero c = 0
excess_digits (suc fuel) c = elim (ltb c (10 ^ 28)) [
  | true ↦ 0
  | false ↦ excess_digits fuel (c / 10) + 1
]

-- a result of the context: rounded to 28 significant digits, at the same place
unfoldable pub to_context : ℕ → ℕ
unfolding round_half_even excess_digits
to_context c = let k = excess_digits c c in round_half_even c (10 ^ k) * 10 ^ k

-- `value * (100 - percent) / 100`, for percent < 100; the division by 100 only moves the point
abbrev pub discounted_by : ℕ → Decimal → Decimal
discounted_by percent (finite negative c s) =
    finite negative (to_context (c * (100 - percent))) (s + 2)
discounted_by percent a = a

-- `to_integral_value(rounding=ROUND_DOWN)`
abbrev pub to_integral_down : Decimal → Decimal
to_integral_down (finite negative c s) = finite negative (c / 10 ^ s) 0
to_integral_down a = a

-- a coefficient with two places; rounding is by the context, ROUND_HALF_EVEN
unfoldable pub cents : ℕ → ℕ → ℕ
unfolding round_half_even
cents c s = if leb s 2 then c * 10 ^ (2 - s) else round_half_even c (10 ^ (s - 2))

-- `quantize(Decimal("0.01"))`: of an infinite value it raises, and where the result has more digits
-- than the 28 of the context
abbrev pub quantize_cents : Decimal → Result PriceError Decimal
quantize_cents (finite negative c s) =
    if ltb (cents c s) (10 ^ 28) then ok (finite negative (cents c s) 2) else err invalid_operation
quantize_cents (infinite negative) = err invalid_operation
quantize_cents nan = ok nan
