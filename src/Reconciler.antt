-- ===== src/Reconciler.antt =====
-- internal/controller/reconciler: what the legacy controllers do before they reach their service.
pub mod Outcomes
pub mod Project
pub mod Credentials
pub mod Passage
pub mod Reaching
pub mod References
mod Tests
