-- ===== src/Reconciliation.antt =====
-- The comparison of the own books with the broker's: backend/src/reconciliation.
pub mod Comparator
mod Tests
