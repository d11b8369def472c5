-- ===== src/Pricing/Rounding.antt =====
-- Laws of the two roundings (src/application/services/pricing.py).
use remnashop.Prelude.{
  ℕ, zero, suc, ◌⊎◌, ◌+◌, ◌*◌, ◌/◌, ◌%◌, ◌^◌, ◌≤◌, ◌<◌, ◌≡◌, arith, inl, inr, refl, true,
  Bool-cases, ltb, ◌==◌, if◌then◌else◌,
}
use native.Mathlib.Nat.{
  div-add-mod', mod-lt, pow-suc, div-le_of_le-mul, le-div_iff_mul-le, mul_comm, div-div-eq-div-mul,
}
use native.Mathlib.Numerals.{towards_suc}
use native.Mathlib.Decide.{dec_lt}
use remnashop.Pricing.Decimal.{round_half_even, excess_digits, to_context}

pub pow_pos : (s : ℕ) → 0 < 10 ^ s
pow_pos zero = omega arith
pow_pos (suc s) = rw pow-suc (omega (arith, pow_pos s))

pub pow_add_two : (s : ℕ) → 10 ^ (s + 2) ≡ 10 ^ s * 100
pow_add_two s = simp towards_suc (simp pow-suc (omega arith))

-- the choice between a quotient and the next number, by the remainder
abbrev pub nearest : ℕ → ℕ → ℕ → ℕ
nearest q r d =
    if ltb (2 * r) d then q else if ltb d (2 * r) then q + 1 else if q % 2 == 0 then q else q + 1

mul_le : (a b d : ℕ) → a ≤ b → a * d ≤ b * d
mul_le a b d h = grind arith

nearest_le : (q r u d : ℕ) → r < d → q * d + r ≤ u * d → nearest q r d ≤ u
nearest_le q r u d small h = elim (dec_lt q u) [
  | yes below ↦ ground arith
  | no above ↦ ground (arith, mul_le u q d (omega arith), mul_le (u + 1) q d)
]

nearest_cases :
    (q r d : ℕ) → ((nearest q r d ≡ q) × (2 * r ≤ d)) ⊎ ((nearest q r d ≡ q + 1) × (d ≤ 2 * r))
nearest_cases q r d = ground arith

nearest_near :
    (q r d : ℕ)
    → r < d
    → (2 * (nearest q r d * d) ≤ 2 * (q * d + r) + d)
      × (2 * (q * d + r) ≤ 2 * (nearest q r d * d) + d)
nearest_near q r d small = elim (nearest_cases q r d) [
  | inl (e, h) ↦ rw e (omega arith, omega arith)
  | inr (e, h) ↦ rw e (omega arith, omega arith)
]

nearest_mono :
    (p r q s d : ℕ) → r < d → s < d → p * d + r ≤ q * d + s → nearest p r d ≤ nearest q s d
nearest_mono p r q s d small small' h = elim (dec_lt p q) [
  | yes below ↦ ground arith
  | no above ↦ elim (dec_lt q p) [
    | yes over ↦ absurd (omega (arith, mul_le (q + 1) p d (omega arith)))
    | no same ↦ let e : p ≡ q = omega arith in rw e (ground (arith, (rw e at h)))
  ]
]

mul_grow : (n d : ℕ) → 0 < d → n ≤ n * d
mul_grow n d pos = grind arith

module _ (d : ℕ) (pos : 0 < d) where
  -- rounding does not pass a whole bound
  pub half_even_le : (n u : ℕ) → n ≤ u * d → round_half_even n d ≤ u
  unfolding round_half_even
  half_even_le n u h = nearest_le (n / d) (n % d) u d (mod-lt n pos) (rw div-add-mod' h)

  pub half_even_near :
      (n : ℕ)
      → (2 * (round_half_even n d * d) ≤ 2 * n + d) × (2 * n ≤ 2 * (round_half_even n d * d) + d)
  unfolding round_half_even
  half_even_near n = rw div-add-mod' at (nearest_near (n / d) (n % d) d (mod-lt n pos))

  pub half_even_mono : (m n : ℕ) → m ≤ n → round_half_even m d ≤ round_half_even n d
  unfolding round_half_even
  half_even_mono m n h =
      nearest_mono (m / d) (m % d) (n / d) (n % d) d (mod-lt m pos) (mod-lt n pos)
        (rw (div-add-mod', div-add-mod') h)

  pub div_mono : (m n : ℕ) → m ≤ n → m / d ≤ n / d
  div_mono m n h = (le-div_iff_mul-le pos).1 (omega (arith, div-add-mod' m d))

  pub div_le : (n u : ℕ) → n ≤ u * d → n / d ≤ u
  div_le n u h = div-le_of_le-mul d (rw mul_comm h)

  pub half_even_near_whole :
      (n : ℕ) → (round_half_even n d * d < n + d) × (n < round_half_even n d * d + d)
  half_even_near_whole n = let (above, below) = half_even_near n in (omega arith, omega arith)

  pub half_even_small : (n : ℕ) → round_half_even n d ≤ n
  half_even_small n = half_even_le n n (mul_grow n d pos)

-- a coefficient of at most 28 digits is left as it is
excess_digits-none : (fuel c : ℕ) → c < 10 ^ 28 → excess_digits fuel c ≡ 0
unfolding excess_digits
excess_digits-none zero c few = refl
excess_digits-none (suc fuel) c few =
    let fits : ltb c (10 ^ 28) ≡ true = ground arith in rw (fits, excess_digits) refl

pub to_context-exact : (c : ℕ) → c < 10 ^ 28 → to_context c ≡ c
unfolding to_context round_half_even
to_context-exact c few = rw (excess_digits-none c c few) (ground arith)

pow_succ : (k : ℕ) → 10 ^ (k + 1) ≡ 10 * 10 ^ k
pow_succ k = simp towards_suc (simp pow-suc (omega arith))

lt_power : (c : ℕ) → c < 10 ^ c
lt_power zero = omega arith
lt_power (suc c) = rw pow-suc (omega (arith, lt_power c))

-- The fuel is enough: without the excess digits 28 are left.
excess_digits-enough :
    (fuel c : ℕ) → c < 10 ^ 28 * 10 ^ fuel → c / 10 ^ excess_digits fuel c < 10 ^ 28
unfolding excess_digits
excess_digits-enough zero c few = ground arith
excess_digits-enough (suc fuel) c few = elim (Bool-cases (ltb c (10 ^ 28))) [
  | inl fits ↦ rw (fits, excess_digits) (ground arith)
  | inr more ↦
      let k = excess_digits fuel (c / 10) in
      let less : c / 10 < 10 ^ 28 * 10 ^ fuel = omega (arith, (rw pow-suc at few)) in
      let ten : 10 ^ (k + 1) ≡ 10 * 10 ^ k = pow_succ k in
      rw (more, excess_digits)
        (rw (ten, ← div-div-eq-div-mul c 10 (10 ^ k)) (excess_digits-enough fuel (c / 10) less))
]

pub excess_digits-gone : (c : ℕ) → c / 10 ^ excess_digits c c < 10 ^ 28
excess_digits-gone c = excess_digits-enough c c (omega (arith, lt_power c))
