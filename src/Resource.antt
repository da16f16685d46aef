-- ===== src/Resource.antt =====
-- internal/controller/customresource, and the state that a legacy reconciler works on.
pub mod Frame
pub mod Leading
pub mod Meta
pub mod Policy
pub mod Protection
pub mod Finalizer
pub mod Scene
pub mod Giving
pub mod Prepare
pub mod Decisions
mod Tests
