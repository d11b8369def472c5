-- ===== src/Pricing.antt =====
-- Prices: discounts and the rounding rules of currencies (src/application/services/pricing.py).
-- A finite `Decimal` is its sign, its coefficient and the number of its decimal places; a
-- discounted price is rounded to the 28 digits of Python's context.
pub mod Decimal
pub mod Service
pub mod Rounding
pub mod Bounds
pub mod Charges
pub mod Parsing
mod Tests
