-- ===== src/Closing.antt =====
-- Closing a position: the request of backend/src/api/options.py, and the workers of
-- backend/src/workers that carry it out over the tables of backend/src/models. Identifiers and texts that
-- are only compared are numbers; a commit ends each method, so a method is one step on the tables.
pub mod Types
pub mod Request
pub mod Outbox
pub mod Updates
pub mod Reconciler
mod Owned
mod Steps
mod Tests
