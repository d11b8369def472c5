-- ===== src/Promocode.antt =====
-- Promocodes: who may redeem one, what it gives, and how often
-- (src/application/use_cases/promocode, src/infrastructure/database/dao/promocode.py).
pub mod Model
pub mod Validate
pub mod Reward
pub mod Activate
pub mod Limits
pub mod Redemption
pub mod Accepted
pub mod Granted
mod Tests
