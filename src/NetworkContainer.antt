-- ===== src/NetworkContainer.antt =====
-- The network container of a project: internal/translation/networkcontainer and
-- internal/controller/atlasnetworkcontainer.
pub mod Conversion
pub mod Service
pub mod Controller
pub mod Reconcile
pub mod Release
pub mod Keeping
mod Tests
