-- ===== src/Pricing/Parsing.antt =====
-- The prices that an administrator types in (src/application/services/pricing.py).
use remnashop.Prelude.{
  ℕ, zero, suc, true, ◌+◌, ◌*◌, ◌/◌, ◌^◌, ◌≤◌, ◌<◌, ◌≡◌, refl, Bool, false, ◌==◌, ltb, arith,
  if◌then◌else◌, some,
}
use remnashop.Prelude.Result.{ok, err}
use remnashop.Pricing.Decimal.{finite, value_error, zero_amount, cents}
use remnashop.Pricing.Service.{
  Currency, usd, xtr, rub, places, apply_currency_rules, parse_price, Discounts, calculate,
}
use remnashop.Pricing.Bounds.{percent_for, cents-add_two}
use remnashop.Pricing.Rounding.{pow_pos, pow_add_two, half_even_near_whole, half_even_small}
use native.Mathlib.Nat.{div-add-mod', mod-lt, div-le_self}
use remnashop.Pricing.Charges.{calculate_whole_price}

abbrev parsed_units : Currency → ℕ → ℕ → ℕ
parsed_units usd c s = cents c s
parsed_units xtr c s = c / 10 ^ s
parsed_units rub c s = c / 10 ^ s

-- the units of the price that is stored: at least one
abbrev stored_units : Currency → ℕ → ℕ → ℕ
stored_units currency c s = let n = parsed_units currency c s in if ltb n 1 then 1 else n

cents_bounds :
    (c s : ℕ)
    → (cents c s ≤ c * 100)
      × (cents c s * 10 ^ s ≤ c * 100 + 10 ^ s)
      × (c * 100 < cents c s * 10 ^ s + 10 ^ s)
unfolding cents
cents_bounds c zero = (ground arith, ground arith, ground arith)
cents_bounds c (suc zero) = (ground arith, ground arith, ground arith)
cents_bounds c (suc (suc k)) =
    let e : suc (suc k) ≡ k + 2 = omega arith in
    let (above, below) = half_even_near_whole (10 ^ k) (pow_pos k) c in
    let few = half_even_small (10 ^ k) (pow_pos k) c in
    rw e (rw (cents-add_two c k, pow_add_two k) (omega arith, omega arith, omega arith))

whole_bounds :
    (c s : ℕ)
    → (c / 10 ^ s ≤ c * 100)
      × (c / 10 ^ s * 10 ^ s ≤ c * 1 + 10 ^ s)
      × (c * 1 < c / 10 ^ s * 10 ^ s + 10 ^ s)
whole_bounds c s =
    let e = div-add-mod' c (10 ^ s) in
    let small = mod-lt c (pow_pos s) in
    let fewer = div-le_self c (10 ^ s) in (omega arith, omega arith, omega arith)

-- The stored price has at most two digits more than the typed one, and is within a unit of it.
units_bounds :
    (currency : Currency) (c s : ℕ)
    → let n = stored_units currency c s in
      (n ≤ c * 100 + 1)
      × (n * 10 ^ s ≤ c * 10 ^ places currency + 10 ^ s)
      × (c * 10 ^ places currency < n * 10 ^ s + 10 ^ s)
units_bounds usd c s = ground (arith, cents_bounds c s, pow_pos s)
units_bounds xtr c s = ground (arith, whole_bounds c s, pow_pos s)
units_bounds rub c s = ground (arith, whole_bounds c s, pow_pos s)

rules-positive :
    (currency : Currency) (c s : ℕ)
    → c < 10 ^ 24
    → apply_currency_rules (finite false c s) currency
      ≡ ok (finite false (stored_units currency c s) (places currency))
unfolding apply_currency_rules
rules-positive usd c s few =
    let fits : ltb (cents c s) (10 ^ 28) ≡ true = ground (arith, cents_bounds c s) in ground arith
rules-positive xtr c s few = ground arith
rules-positive rub c s few = ground arith

-- A finite number of at most 24 digits that is typed in is refused with `ValueError` if it is below
-- zero, becomes 0 if it is zero, and otherwise becomes a whole number n of units of the currency, at
-- least one, that differs from the typed value by at most one unit. A customer with a discount below
-- 100 percent is charged a whole number of units for n, at least one and at most n; the reported
-- discount is 0 where that is n, and the customer's otherwise.
pub parsed_price_is_whole :
    (currency : Currency) (negative : Bool) (c s : ℕ) (user : Discounts) (apply_discount : Bool)
    → c < 10 ^ 24
    → percent_for user apply_discount < 100
    → (n m : ℕ) × (1 ≤ m)
      × (m ≤ n)
      × (n * 10 ^ s ≤ c * 10 ^ places currency + 10 ^ s)
      × (c * 10 ^ places currency < n * 10 ^ s + 10 ^ s)
      × (parse_price (some (finite negative c s)) currency ≡ (
          if c == 0
          then ok zero_amount
          else if negative
          then err value_error
          else ok (finite false n (places currency))))
      × (calculate user (finite false n (places currency)) currency apply_discount
          ≡ ok (record {
            original_amount = finite false n (places currency);
            discount_percent = if m == n then 0 else percent_for user apply_discount;
            final_amount = finite false m (places currency);
          }))
unfolding parse_price
parsed_price_is_whole currency negative c s user apply_discount few below =
    let n = stored_units currency c s in
    let pos : 1 ≤ n = ground arith in
    let (size, above, near) = units_bounds currency c s in
    let (m, least, most, charge) =
      calculate_whole_price user currency apply_discount n (places currency) n refl pos
        (omega arith) below in
    (n, m, least, most, above, near, ground (arith, rules-positive currency c s few), charge)
