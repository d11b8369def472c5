-- ===== src/Recovery.antt =====
-- The snapshot of a resolved payment, from which a payment whose answer was lost is recovered
-- (src/application/services/payment_recovery_snapshot.py).
pub mod Value
pub mod Snapshot
pub mod Reading
pub mod RoundTrip
mod Tests
