-- ===== src/Payment/Dao.antt =====
-- The statements of `PaymentOperationDaoImpl`. A statement reads the clock once, as `now`; it is an
-- UPDATE (which rows, and their new values) or a DELETE (which rows), and a method returns whether
-- it met exactly one row.
pub mod Claims
pub mod Processing
pub mod Reconciliation
pub mod Held
pub mod Alerts
pub mod Defs
