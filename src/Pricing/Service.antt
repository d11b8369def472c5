-- ===== src/Pricing/Service.antt =====
-- `PricingService` (src/application/services/pricing.py). Logging is left out.
use remnashop.Prelude.{
  ℕ, min, max, Bool, true, false, ◌&&◌, Option, none, some, List, [], ◌∷◌, ltb, leb, if◌then◌else◌,
}
use remnashop.Prelude.Result.{Result, ok, err, ◌>>=◌}
use remnashop.Pricing.Decimal.{
  Decimal, finite, PriceError, value_error, price_not_found, zero_amount, le_zero, lt_zero, eq_zero,
  eq_amount, lt_units, discounted_by, to_integral_down, quantize_cents,
}

-- `Currency`
pub data Currency : Type 0 where
  usd xtr rub : Currency

abbrev pub currency_eq : Currency → Currency → Bool
currency_eq usd usd = true
currency_eq xtr xtr = true
currency_eq rub rub = true
currency_eq a b = false

-- the fields of `UserDto` that prices depend on
pub record Discounts : Type 0 where
  pub personal_discount : ℕ
  pub purchase_discount : ℕ

pub record PriceDetails : Type 0 where
  pub original_amount : Decimal
  pub discount_percent : ℕ
  pub final_amount : Decimal

pub record PlanPrice : Type 0 where
  pub currency : Currency
  pub price : Decimal

unfoldable pub is_largest_discount_personal : Discounts → Bool
is_largest_discount_personal u =
    ltb 0 u.personal_discount && ltb u.purchase_discount u.personal_discount

unfoldable pub get_effective_discount : Discounts → ℕ
get_effective_discount u = min (max u.purchase_discount u.personal_discount) 100

-- XTR and RUB have no minor units
abbrev pub places : Currency → ℕ
places usd = 2
places xtr = 0
places rub = 0

-- the rounding of the two cases; `normalize` keeps the value
unfoldable pub round_amount : Currency → Decimal → Result PriceError Decimal
round_amount usd amount = quantize_cents amount
round_amount xtr amount = ok (to_integral_down amount)
round_amount rub amount = ok (to_integral_down amount)

-- the least amount: one unit, or 0.01
abbrev pub min_amount : Currency → Decimal
min_amount currency = finite false 1 (places currency)

unfoldable pub apply_currency_rules : Decimal → Currency → Result PriceError Decimal
unfolding round_amount
apply_currency_rules amount currency = do
  rounded ← round_amount currency amount
  small ← lt_units rounded 1 (places currency)
  ok (if small then min_amount currency else rounded)

-- the price details once a discount below 100 percent is known
unfoldable pub with_discount : Decimal → Currency → ℕ → Result PriceError PriceDetails
unfolding apply_currency_rules
with_discount price currency percent = do
  final ← apply_currency_rules (discounted_by percent price) currency
  ok (record {
    original_amount = price;
    discount_percent = if eq_amount final price then 0 else percent;
    final_amount = final;
  })

abbrev free_of_charge : PriceDetails
free_of_charge = record {
  original_amount = zero_amount;
  discount_percent = 0;
  final_amount = zero_amount;
}

unfoldable pub calculate : Discounts → Decimal → Currency → Bool → Result PriceError PriceDetails
unfolding with_discount get_effective_discount
calculate user price currency apply_discount = do
  free ← le_zero price
  let percent = if apply_discount then get_effective_discount user else 0
  if free
      then ok free_of_charge
      else if leb 100 percent
      then ok
          (record { original_amount = price; discount_percent = 100; final_amount = zero_amount })
      else with_discount price currency percent

-- `next((p.price for p in prices if p.currency == currency), None)`
unfoldable pub find_price : Currency → List PlanPrice → Option Decimal
find_price currency [] = none
find_price currency (p ∷ prices) =
    let rest = find_price currency prices in
    if currency_eq p.currency currency then some p.price else rest

-- `next((p.price for p in duration.prices), Decimal(0))`
abbrev pub first_price : List PlanPrice → Decimal
first_price [] = zero_amount
first_price (p ∷ prices) = p.price

-- `PlanDurationDto.get_price`
unfoldable pub get_price : Currency → List PlanPrice → Result PriceError Decimal
unfolding find_price
get_price currency prices = elim (find_price currency prices) [
  | none ↦ err price_not_found
  | some p ↦ ok p
]

abbrev is_none : Option Decimal → Bool
is_none none = true
is_none (some _) = false

unfoldable pub calculate_for_duration :
    Discounts → List PlanPrice → Currency → Bool → Result PriceError PriceDetails
unfolding calculate find_price get_price get_effective_discount
calculate_for_duration user prices currency apply_discount =
    if leb 100 (if apply_discount then get_effective_discount user else 0)
      && is_none (find_price currency prices)
    then calculate user (first_price prices) currency apply_discount
    else (get_price currency prices >>= λ price. calculate user price currency apply_discount)

-- `parse_price`; `parsed` is what `Decimal(input_price.strip())` gives, none for InvalidOperation
unfoldable pub parse_price : Option Decimal → Currency → Result PriceError Decimal
unfolding apply_currency_rules
parse_price none currency = err value_error
parse_price (some price) currency = do
  negative ← lt_zero price
  if negative
      then err value_error
      else if eq_zero price
      then ok zero_amount
      else apply_currency_rules price currency
