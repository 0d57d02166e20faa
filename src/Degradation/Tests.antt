-- ===== src/Degradation/Tests.antt =====
-- The control plane at concrete inputs.
mod Fixtures
mod Service
mod Recovery
mod Parts
