-- ===== src/Audit.antt =====
-- The audit trail, backend/src/audit: its chain of checksums.
pub mod Chain
mod Tests
