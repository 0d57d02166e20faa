-- ===== src/Degradation.antt =====
-- Graceful degradation, backend/src/degradation.
pub mod Types
pub mod Breaker
pub mod Gate
pub mod Bus
pub mod Service
pub mod Recovery
pub mod Feed
pub mod Buffer
mod Tests
