-- ===== src/Risk.antt =====
-- Risk control, backend/src/risk.
pub mod State
pub mod Signals
pub mod Manager
pub mod Gate
mod Tests
