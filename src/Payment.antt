-- ===== src/Payment.antt =====
-- Payment operations: the durable record of one idempotent payment request
-- (src/application/common/dao/payment_operation.py), the statements on its table
-- (src/infrastructure/database/dao/payment_operation.py) and the service that a request goes
-- through (src/application/services/payment_idempotency.py).
pub mod Operation
pub mod Dao
pub mod Keys
pub mod Calls
pub mod Invariant
pub mod History
pub mod Once
pub mod Idempotency
mod Tests
