-- ===== src/Fulfillment.antt =====
-- Paid transactions: what the events of payment providers do to them, and how often the purchase is
-- carried out (src/application/use_cases/gateways/commands/payment.py,
-- src/infrastructure/database/dao/transaction.py).
pub mod Row
pub mod Statements
pub mod Inbox
pub mod Db
pub mod Process
pub mod Settle
pub mod Calls
pub mod Worker
pub mod Checks
pub mod Retry
pub mod Progress
pub mod Redelivery
pub mod Once
pub mod Final
mod Tests
