-- ===== src/Governance.antt =====
-- The governance layer, backend/src/governance: constraints that hypotheses activate, how those of a
-- symbol are merged. Texts that are only compared are numbers, in their order where they are sorted.
pub mod Constraints
pub mod Pool
mod Tests
