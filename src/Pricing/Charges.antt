-- ===== src/Pricing/Charges.antt =====
-- The promises of `PricingService` (src/application/services/pricing.py).
use remnashop.Prelude.{
  ℕ, zero, suc, ◌*◌, ◌^◌, ◌≤◌, ◌<◌, ◌≡◌, refl, ◌∙◌, ==→eq, ==-refl, Bool, true, false, arith,
  Bool-cases, Option-cases, inl, inr, if◌then◌else◌, ◌==◌, some, List, [], ◌∷◌, All,
}
use remnashop.Prelude.Result.{Result, ok, err}
use remnashop.Pricing.Decimal.{Decimal, finite, infinite, nan, PriceError, zero_amount, eq_amount}
use remnashop.Pricing.Service.{
  Currency, currency_eq, first_price, Discounts, PriceDetails, PlanPrice, places, calculate,
  get_effective_discount, find_price, get_price, calculate_for_duration,
}
use native.Mathlib.Nat.{mul-le-mul_left, eq_of_mul-eq-mul_right}
use native.Mathlib.Decide.{dec_lt}
use mathlib.Core.Path.{subst}
use remnashop.Pricing.Rounding.{pow_pos}
use remnashop.Pricing.Bounds.{charged, percent_for, calculate-finite, rounded_le, rounded_antitone}

pos_of_whole : (c s u k : ℕ) → c * 10 ^ k ≡ u * 10 ^ s → 1 ≤ u → 0 < c
pos_of_whole zero s u k whole pos = absurd (omega (arith, mul-le-mul_left (10 ^ s) pos, pow_pos s))
pos_of_whole (suc c) s u k whole pos = omega arith

times_eq : (n u k : ℕ) → 0 < k → (n * k == u * k) ≡ (n == u)
times_eq n u k pos = elim (Bool-cases (n == u)) [
  | inl same ↦ let e : n ≡ u = ==→eq n u same in rw e (rw (==-refl (u * k), ==-refl u) refl)
  | inr other ↦ elim (Bool-cases (n * k == u * k)) [
    | inl same ↦
        let e : n ≡ u = eq_of_mul-eq-mul_right k pos n u (==→eq (n * k) (u * k) same) in
        absurd (ground arith)
    | inr apart ↦ rw (other, apart) refl
  ]
]

eq_amount-whole :
    (c s u k n : ℕ)
    → c * 10 ^ k ≡ u * 10 ^ s
    → 0 < c
    → eq_amount (finite false n k) (finite false c s) ≡ (n == u)
eq_amount-whole c s u k n whole pos =
    rw whole (rw (times_eq n u (10 ^ s) (pow_pos s)) (ground arith))

-- A price of u whole units of its currency (whole stars or roubles, or whole cents) that is written
-- with at most 26 digits, discounted by less than 100 percent: the customer is charged a whole number n of units, at least one and at
-- most u. The reported discount is 0 where n is the full price u, and the customer's otherwise.
pub calculate_whole_price :
    (user : Discounts) (currency : Currency) (apply_discount : Bool) (c s u : ℕ)
    → c * 10 ^ places currency ≡ u * 10 ^ s
    → 1 ≤ u
    → c < 10 ^ 26
    → percent_for user apply_discount < 100
    → (n : ℕ) × (1 ≤ n)
      × (n ≤ u)
      × (calculate user (finite false c s) currency apply_discount
          ≡ ok (record {
            original_amount = finite false c s;
            discount_percent = if n == u then 0 else percent_for user apply_discount;
            final_amount = finite false n (places currency);
          }))
calculate_whole_price user currency apply_discount c s u whole pos small below =
    let d = percent_for user apply_discount in
    let n = charged currency c s d in
    let positive = pos_of_whole c s u (places currency) whole pos in
    (
      n,
      ground arith,
      ground (arith, rounded_le currency c s u d whole),
      calculate-finite user currency apply_discount c s positive small below
          ∙ rw (eq_amount-whole c s u (places currency) n whole positive) refl,
    )

-- the units that a result charges; an exception charges none
abbrev pub units_of : Result PriceError PriceDetails → ℕ
units_of (err e) = 0
units_of (ok r) = elim r.final_amount [ finite negative c s ↦ c | infinite negative ↦ 0 | nan ↦ 0 ]

calculate-free :
    (user : Discounts) (currency : Currency) (apply_discount : Bool) (c s : ℕ)
    → 0 < c
    → 100 ≤ percent_for user apply_discount
    → calculate user (finite false c s) currency apply_discount
      ≡ ok (record {
        original_amount = finite false c s;
        discount_percent = 100;
        final_amount = zero_amount;
      })
unfolding calculate
calculate-free user currency apply_discount c s pos full = ground arith

-- Of two customers the one with the larger effective discount is never charged more for the same
-- positive price of at most 26 digits, whatever the discounts are, 100 percent included.
pub larger_discount_costs_no_more :
    (user other : Discounts) (currency : Currency) (c s : ℕ)
    → 0 < c
    → c < 10 ^ 26
    → get_effective_discount user ≤ get_effective_discount other
    → units_of (calculate other (finite false c s) currency true)
      ≤ units_of (calculate user (finite false c s) currency true)
larger_discount_costs_no_more user other currency c s pos small h =
    elim (dec_lt (get_effective_discount other) 100) [
      | yes below ↦
          rw
            (
              calculate-finite other currency true c s pos small below,
              calculate-finite user currency true c s pos small (omega arith),
            )
            (ground (
              arith,
              rounded_antitone currency c s (get_effective_discount user)
                  (get_effective_discount other) h,
            ))
      | no full ↦ rw (calculate-free other currency true c s pos (omega arith)) (omega arith)
    ]

abbrev pub IsFinite : Decimal → Type 0
IsFinite (finite negative c s) = Unit
IsFinite _ = ⊥

calculate-covered :
    (user : Discounts) (price : Decimal) (currency : Currency)
    → IsFinite price
    → 100 ≤ get_effective_discount user
    → (r : PriceDetails) × (calculate user price currency true ≡ ok r)
      × (r.final_amount ≡ zero_amount)
unfolding calculate
calculate-covered user (finite true c s) currency fin full = (
  record { original_amount = zero_amount; discount_percent = 0; final_amount = zero_amount },
  ground arith,
  refl,
)
calculate-covered user (finite false zero s) currency fin full = (
  record { original_amount = zero_amount; discount_percent = 0; final_amount = zero_amount },
  ground arith,
  refl,
)
calculate-covered user (finite false (suc c) s) currency fin full = (
  record {
    original_amount = finite false (suc c) s;
    discount_percent = 100;
    final_amount = zero_amount;
  },
  ground arith,
  refl,
)
calculate-covered user (infinite negative) currency fin full = absurd fin
calculate-covered user nan currency fin full = absurd fin

find_price-IsFinite :
    (currency : Currency) (prices : List PlanPrice) (price : Decimal)
    → All (λ p. IsFinite p.price) prices
    → find_price currency prices ≡ some price
    → IsFinite price
unfolding find_price
find_price-IsFinite currency [] price fin e = absurd (cc e)
find_price-IsFinite currency (p ∷ prices) price fin e =
    elim (Bool-cases (currency_eq p.currency currency)) [
      | inl here ↦ let same : p.price ≡ price = ground arith in subst IsFinite same fin.0
      | inr there ↦ find_price-IsFinite currency prices price fin.1 (ground arith)
    ]

first_price-IsFinite :
    (prices : List PlanPrice) → All (λ p. IsFinite p.price) prices → IsFinite (first_price prices)
first_price-IsFinite [] fin = tt
first_price-IsFinite (p ∷ prices) fin = fin.0

-- A customer with a full discount gets every duration with finite prices for nothing, also in a
-- currency that it has no price in: no exception is raised.
pub full_discount_is_free :
    (user : Discounts) (prices : List PlanPrice) (currency : Currency)
    → All (λ p. IsFinite p.price) prices
    → 100 ≤ get_effective_discount user
    → (r : PriceDetails) × (calculate_for_duration user prices currency true ≡ ok r)
      × (r.final_amount ≡ zero_amount)
unfolding calculate_for_duration get_price
full_discount_is_free user prices currency fin full =
    elim (Option-cases (find_price currency prices)) [
      | inl absent ↦
          let (r, e, free) =
            calculate-covered user (first_price prices) currency (first_price-IsFinite prices fin)
              full in
          (r, ground arith, free)
      | inr (price, there) ↦
          let (r, e, free) =
            calculate-covered user price currency
              (find_price-IsFinite currency prices price fin there) full in
          (r, ground arith, free)
    ]
