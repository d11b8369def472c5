-- ===== src/Pricing/Bounds.antt =====
-- What a customer is asked to pay (src/application/services/pricing.py).
use remnashop.Prelude.{
  ℕ, zero, suc, ◌+◌, ◌-◌, ◌*◌, ◌/◌, ◌^◌, ◌≤◌, ◌<◌, ◌≡◌, Bool, true, false, arith, if◌then◌else◌,
  ltb,
}
use remnashop.Prelude.Result.{ok}
use remnashop.Pricing.Decimal.{finite, round_half_even, cents, eq_amount, to_context}
use remnashop.Pricing.Service.{
  Currency, usd, xtr, rub, Discounts, places, apply_currency_rules, with_discount, calculate,
  get_effective_discount,
}
use native.Mathlib.Nat.{mul-le-mul_left}
use remnashop.Pricing.Rounding.{
  pow_pos, pow_add_two, half_even_le, half_even_small, to_context-exact, half_even_mono, div_mono,
  div_le,
}

-- the smallest units of a currency that a discounted price comes to, before the least amount
abbrev pub rounded_units : Currency → ℕ → ℕ → ℕ → ℕ
rounded_units usd c s d = cents (c * (100 - d)) (s + 2)
rounded_units xtr c s d = c * (100 - d) / 10 ^ (s + 2)
rounded_units rub c s d = c * (100 - d) / 10 ^ (s + 2)

-- what is charged, in smallest units: at least one
abbrev pub charged : Currency → ℕ → ℕ → ℕ → ℕ
charged currency c s d = let n = rounded_units currency c s d in if ltb n 1 then 1 else n

pub cents-add_two : (n s : ℕ) → cents n (s + 2) ≡ round_half_even n (10 ^ s)
unfolding cents
cents-add_two n zero = unfold round_half_even in ground arith
cents-add_two n (suc k) = let e : suc k + 2 - 2 ≡ suc k = omega arith in rw e (ground arith)

part_le : (c d : ℕ) → c * (100 - d) ≤ c * 100
part_le c d = mul-le-mul_left c (omega arith)

-- the cents of a discounted price of at most 26 digits fit the context
cents_fit : (c s d : ℕ) → c < 10 ^ 26 → ltb (cents (c * (100 - d)) (s + 2)) (10 ^ 28) ≡ true
cents_fit c s d small =
    rw cents-add_two
      (ground (arith, half_even_small (10 ^ s) (pow_pos s) (c * (100 - d)), part_le c d))

-- The rules of a currency applied to a discounted finite price.
rules-discounted :
    (currency : Currency) (c s d : ℕ)
    → c < 10 ^ 26
    → apply_currency_rules (finite false (c * (100 - d)) (s + 2)) currency
      ≡ ok (finite false (charged currency c s d) (places currency))
unfolding apply_currency_rules
rules-discounted usd c s d small = ground (arith, cents_fit c s d small)
rules-discounted xtr c s d small = ground arith
rules-discounted rub c s d small = ground arith

part_antitone : (c d e : ℕ) → d ≤ e → c * (100 - e) ≤ c * (100 - d)
part_antitone c d e h = mul-le-mul_left c (omega arith)

whole_below : (c s u d : ℕ) → c * 10 ^ 0 ≡ u * 10 ^ s → c * (100 - d) / 10 ^ (s + 2) ≤ u
whole_below c s u d whole =
    div_le (10 ^ (s + 2)) (pow_pos (s + 2)) (c * (100 - d)) u
      (rw pow_add_two (omega (arith, part_le c d)))

pub rounded_le :
    (currency : Currency) (c s u d : ℕ)
    → c * 10 ^ places currency ≡ u * 10 ^ s
    → rounded_units currency c s d ≤ u
rounded_le usd c s u d whole =
    rw cents-add_two
      (half_even_le (10 ^ s) (pow_pos s) (c * (100 - d)) u (omega (arith, part_le c d)))
rounded_le xtr c s u d whole = whole_below c s u d whole
rounded_le rub c s u d whole = whole_below c s u d whole

pub rounded_antitone :
    (currency : Currency) (c s d e : ℕ)
    → d ≤ e
    → rounded_units currency c s e ≤ rounded_units currency c s d
rounded_antitone usd c s d e h =
    rw (cents-add_two (c * (100 - e)) s, cents-add_two (c * (100 - d)) s)
      (half_even_mono (10 ^ s) (pow_pos s) _ _ (part_antitone c d e h))
rounded_antitone xtr c s d e h =
    div_mono (10 ^ (s + 2)) (pow_pos (s + 2)) _ _ (part_antitone c d e h)
rounded_antitone rub c s d e h =
    div_mono (10 ^ (s + 2)) (pow_pos (s + 2)) _ _ (part_antitone c d e h)

abbrev pub percent_for : Discounts → Bool → ℕ
percent_for user apply_discount = if apply_discount then get_effective_discount user else 0

-- below 100 percent a finite price above zero goes through the rules of the currency
pub calculate-finite :
    (user : Discounts) (currency : Currency) (apply_discount : Bool) (c s : ℕ)
    → 0 < c
    → c < 10 ^ 26
    → percent_for user apply_discount < 100
    → let n = charged currency c s (percent_for user apply_discount) in
      calculate user (finite false c s) currency apply_discount
      ≡ ok (record {
        original_amount = finite false c s;
        discount_percent =
            if eq_amount (finite false n (places currency)) (finite false c s)
            then 0
            else percent_for user apply_discount;
        final_amount = finite false n (places currency);
      })
unfolding calculate with_discount
calculate-finite user currency apply_discount c s pos small below =
    let p = percent_for user apply_discount in
    let exact : to_context (c * (100 - p)) ≡ c * (100 - p) =
      to_context-exact (c * (100 - p)) (omega (arith, part_le c p)) in
    ground (arith, exact, rules-discounted currency c s p small)
