-- ===== src/Domain.antt =====
-- The pure decisions under src/domain.
pub mod Transition
pub mod Evidence
pub mod Policy
mod Tests
