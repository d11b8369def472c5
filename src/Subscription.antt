-- ===== src/Subscription.antt =====
-- Subscriptions: what a user has bought, how trials and purchases change it
-- (src/application/use_cases/subscription/commands/purchase.py).
pub mod Model
pub mod Calendar
pub mod Store
pub mod Purchase
pub mod Trial
pub mod Grace
mod Tests
