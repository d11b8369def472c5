-- ===== src/Pricing/Tests.antt =====
-- Prices at concrete amounts.
use remnashop.Prelude.{
  ℕ, ◌≤◌, ◌<◌, ◌*◌, ◌+◌, ◌^◌, ◌≡◌, refl, true, false, List, [], ◌∷◌, ◌==◌, if◌then◌else◌, some,
  arith,
}
use remnashop.Prelude.Result.{ok, err}
use remnashop.Pricing.Decimal.{
  finite, infinite, nan, zero_amount, invalid_operation, cents, to_context,
}
use remnashop.Pricing.Service.{
  usd, rub, Discounts, PriceDetails, PlanPrice, get_effective_discount, calculate,
  calculate_for_duration, parse_price, apply_currency_rules,
}
use remnashop.Pricing.Bounds.{percent_for}
use remnashop.Pricing.Charges.{
  units_of, calculate_whole_price, larger_discount_costs_no_more, full_discount_is_free,
}
use remnashop.Pricing.Parsing.{parsed_price_is_whole}

abbrev regular : Discounts
regular = record { personal_discount = 15; purchase_discount = 5 }

abbrev insider : Discounts
insider = record { personal_discount = 0; purchase_discount = 250 }

-- 199 roubles less 15 percent are 169.15, and 169 are charged
rouble_price : units_of (calculate regular (finite false 199 0) rub true) ≡ 169
unfolding calculate to_context
rouble_price = refl

-- 0.50 less 15 percent is 0.425: half to even gives 0.42
cent_price : units_of (calculate regular (finite false 50 2) usd true) ≡ 42
unfolding calculate cents to_context
cent_price = refl

calculate_whole_price_example :
    (n : ℕ) × (1 ≤ n)
    × (n ≤ 19900)
    × (calculate regular (finite false 19900 2) usd true
        ≡ ok (record {
          original_amount = finite false 19900 2;
          discount_percent = if n == 19900 then 0 else percent_for regular true;
          final_amount = finite false n 2;
        }))
unfolding get_effective_discount
calculate_whole_price_example =
    calculate_whole_price regular usd true 19900 2 19900 refl (omega arith) (omega arith)
      (omega arith)

larger_discount_costs_no_more_example :
    units_of (calculate insider (finite false 1995 1) rub true)
    ≤ units_of (calculate regular (finite false 1995 1) rub true)
unfolding get_effective_discount
larger_discount_costs_no_more_example =
    larger_discount_costs_no_more regular insider rub 1995 1 (omega arith) (omega arith)
      (omega arith)

abbrev dollars_only : List PlanPrice
dollars_only = record { currency = usd; price = finite false 499 2 } ∷ []

full_discount_is_free_example :
    (r : PriceDetails) × (calculate_for_duration insider dollars_only rub true ≡ ok r)
    × (r.final_amount ≡ zero_amount)
unfolding get_effective_discount
full_discount_is_free_example =
    full_discount_is_free insider dollars_only rub (tt, tt) (omega arith)

parsed_price_is_whole_example :
    (n m : ℕ) × (1 ≤ m)
    × (m ≤ n)
    × (n * 100 ≤ 12999 * 1 + 100)
    × (12999 * 1 < n * 100 + 100)
    × (parse_price (some (finite false 12999 2)) rub ≡ ok (finite false n 0))
    × (calculate regular (finite false n 0) rub true
        ≡ ok (record {
          original_amount = finite false n 0;
          discount_percent = if m == n then 0 else percent_for regular true;
          final_amount = finite false m 0;
        }))
unfolding get_effective_discount
parsed_price_is_whole_example =
    parsed_price_is_whole rub false 12999 2 regular true (omega arith) (omega arith)

-- "Infinity" is accepted as a price in roubles; in dollars it raises, as "NaN" does and as a number
-- does whose cents have more than 28 digits
infinite_roubles : parse_price (some (infinite false)) rub ≡ ok (infinite false)
unfolding parse_price apply_currency_rules
infinite_roubles = refl

infinite_dollars : parse_price (some (infinite false)) usd ≡ err invalid_operation
unfolding parse_price apply_currency_rules
infinite_dollars = refl

no_number : parse_price (some nan) rub ≡ err invalid_operation
unfolding parse_price apply_currency_rules
no_number = refl

too_many_dollars : parse_price (some (finite false (10 ^ 26) 0)) usd ≡ err invalid_operation
unfolding parse_price apply_currency_rules cents
too_many_dollars = refl

-- 29 digits are rounded to 28, a tie to the even one
context_digits : to_context (10 ^ 28 + 15) ≡ 10 ^ 28 + 20
unfolding to_context
context_digits = refl
